-- ===== src/Status/Meter.antt =====
-- What the rates and the page of `BaseCore::Status` say of the service.
use worker_informer.Base.{
  to_int_small, ℕ, ◌+◌, ◌-◌, ◌*◌, ◌/◌, ◌%◌, ◌^◌, ◌≤◌, ◌<◌, pos, negsuc, to_int, false, ◌≡◌, refl,
  ap, ap₂, ◌∙◌, some, arith, Bytes, is_empty,
}
use worker_informer.Config.Fields.{Config}
use worker_informer.Status.Rates.{rate, counted, to_int_negative, rate_exact, rate_lost}
use worker_informer.Status.Page.{
  Printers, Service, Counters, Now, current_rate, average_rate, status_text, status,
}

counted_between : (a k : ℕ) → a < 2 ^ 64 → k < 2 ^ 64 → counted ((a + k) % 2 ^ 64) a ≡ k
counted_between a k h l = omega arith

module _ {Time Real : Type 0} (out : Printers Time Real) (cfg : Config)
    (s : Service Time Real) where
  -- The counters at a later call, `k` requests behind a call.
  abbrev pub later_counters : ℕ → Counters Time → Counters Time
  later_counters k c = record c { request_processed = (c.request_processed + k) % 2 ^ 64 }

  current_rate_lem :
      (now later : Now Time) (c : Counters Time) (k ms : ℕ)
      → c.request_processed < 2 ^ 64
      → out.milliseconds later.precise now.precise ≡ pos ms
      → 0 < ms
      → ms < 2 ^ 31
      → k * 1000 < 2 ^ 64
      → k * 1000 / ms < 2 ^ 31
      → current_rate out s later (record {
        last_time_accessed = some now.precise;
        request_processed = (c.request_processed + k) % 2 ^ 64;
        last_time_request_processed = c.request_processed;
      })
        ≡ pos (k * 1000 / ms)
  unfolding current_rate
  current_rate_lem now later c k ms bound e positive short fits small =
      let window : to_int (out.milliseconds later.precise now.precise) ≡ pos ms =
        ap to_int e ∙ to_int_small ms short in
      ap₂ rate (counted_between c.request_processed k bound (omega arith)) window
      ∙ rate_exact k ms fits positive (omega arith) small

  -- The call `ms` milliseconds and `k` requests behind another one shows `k * 1000 / ms` requests for
  -- a second, whatever the 64-bit counter was, and though it wraps around. `ms` is positive and below 2^31,
  -- `k * 1000` is below 2^64, and the rate is below 2^31.
  pub status_rate :
      (now later : Now Time) (name name' : Bytes) (c : Counters Time) (k ms : ℕ)
      → c.request_processed < 2 ^ 64
      → out.milliseconds later.precise now.precise ≡ pos ms
      → 0 < ms
      → ms < 2 ^ 31
      → k * 1000 < 2 ^ 64
      → k * 1000 / ms < 2 ^ 31
      → let c' = later_counters k ((status out cfg s now name c).1) in
        (status out cfg s later name' c').0
        ≡ status_text out cfg s later c' (pos (k * 1000 / ms)) (average_rate out s later c') name'
  unfolding status
  status_rate now later name name' c k ms bound e positive short fits small =
      let c' = later_counters k ((status out cfg s now name c).1) in
      ap (λ r. status_text out cfg s later c' r (average_rate out s later c') name')
        (current_rate_lem now later c k ms bound e positive short fits small)

  -- Between 2^31 and 2^32 milliseconds behind the start, about 25 to 50 days, the page shows 0 for the
  -- average number of requests for a second, however many there were, up to 2^63 / 1000.
  pub status_average_lost :
      (now : Now Time) (name : Bytes) (c : Counters Time) (t : ℕ)
      → out.milliseconds now.precise s.time_service_started ≡ pos t
      → 2 ^ 31 ≤ t
      → t < 2 ^ 32
      → c.request_processed * 1000 < 2 ^ 63
      → (status out cfg s now name c).0
        ≡ status_text out cfg s now c (current_rate out s now c) (pos 0) name
  unfolding status average_rate
  status_average_lost now name c t e lo hi small =
      let window : to_int (out.milliseconds now.precise s.time_service_started)
          ≡ negsuc (2 ^ 32 - t - 1) =
        ap to_int e ∙ to_int_negative t lo hi in
      ap (λ r. status_text out cfg s now c (current_rate out s now c) r name)
        (ap (rate c.request_processed) window
          ∙ rate_lost c.request_processed (2 ^ 32 - t - 1) (omega arith) small)

  pub status_nonempty :
      (now : Now Time) (name : Bytes) (c : Counters Time)
      → is_empty ((status out cfg s now name c).0) ≡ false
  unfolding status status_text
  status_nonempty now name c = refl
