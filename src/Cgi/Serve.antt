-- ===== src/Cgi/Serve.antt =====
-- `CgiService::Serve`, behind `ProcessRequest`: the core and the count of one thread.
use worker_informer.Base.{ℕ, ◌+◌, ◌-◌, ◌^◌, Option, none, some, ltb, if◌then◌else◌}
use worker_informer.Core.State.{State}

-- `delete core; core = new Core()`: the pointer is set by each request; the heap and the number of
-- requests processed are not the core's.
abbrev pub new_core : {Real : Type 0} → State Real → State Real
new_core s = record s { informer = none }

-- `count_req++` of an `int`; `none` is an overflow.
abbrev pub incremented : ℕ → Option ℕ
incremented n = if ltb n (2 ^ 31 - 1) then some (n + 1) else none
