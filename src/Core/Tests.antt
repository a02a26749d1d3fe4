-- ===== src/Core/Tests.antt =====
-- Requests to a core with one informer, and the theorems at these inputs.
use worker_informer.Base.{ℕ, ◌+◌, pos, true, none, ◌≡◌, Bytes}
use worker_informer.Core.Params.{Params, new_params, set_informer_id}
use worker_informer.Core.State.{State}
use worker_informer.Core.Counter.{Counter, Reach, counter_lost}

abbrev request : Bytes → Params
request id = record (set_informer_id (λ s. s) id (new_params (pos 0) 0 (pos 0))) {
  test_mode = true;
}

abbrev initial : State ℕ
initial = record { cell = λ a. none; next = 4; informer = none; request_processed = 0 }

counter_lost_example : (s : Counter) × Reach s × (s.request_processed ≡ 1) × (s.made ≡ 3 + 1)
counter_lost_example = counter_lost 3
