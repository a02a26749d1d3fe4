-- ===== src/Status/Tests.antt =====
-- Rates and names, and the theorems at a small service.
use worker_informer.Base.{ℕ, ◌+◌, ◌^◌, pos, [], ◌∷◌, ◌≡◌, refl, arith, codes, utf8}
use worker_informer.Config.Sample.{blank}
use worker_informer.Status.Rates.{rate}
use worker_informer.Status.Page.{
  Counters, status, status_text, shown_name, current_rate, average_rate,
}
use worker_informer.Status.Sample.{clock, service, counters, at}
use worker_informer.Status.Meter.{later_counters, status_rate, status_average_lost}

ten_in_two_seconds : rate 10 (pos 2000) ≡ pos 5
unfolding rate
ten_in_two_seconds = refl

no_time : rate 10 (pos 0) ≡ pos 0
unfolding rate
no_time = refl

utf8_letter : utf8 (codes "Сa") ≡ 208 ∷ 161 ∷ b'a' ∷ []
utf8_letter = refl

shown_names : (shown_name [] ≡ []) × (shown_name (codes "host") ≡ utf8 (codes "неизвестно"))
shown_names = (refl, refl)

status_rate_example :
    (status clock blank service (at 5000) [] (
      later_counters clock blank service 7
        ((status clock blank service (at 3000) [] counters).1))).0
    ≡ status_text clock blank service
        (at 5000)
        (later_counters clock blank service 7
          ((status clock blank service (at 3000) [] counters).1))
        (pos 3)
        (average_rate clock service (at 5000) (
          later_counters clock blank service 7
            ((status clock blank service (at 3000) [] counters).1)))
        []
status_rate_example =
    status_rate clock blank service (at 3000) (at 5000) [] [] counters 7 2000 (omega arith) refl
      (omega arith) (omega arith) (omega arith) (omega arith)

abbrev busy : Counters ℕ
busy = record counters { request_processed = 10 ^ 9 }

status_average_lost_example :
    (status clock blank service (at (2 ^ 31 + 1000)) [] busy).0
    ≡ status_text clock blank service
        (at (2 ^ 31 + 1000))
        busy
        (current_rate clock service (at (2 ^ 31 + 1000)) busy)
        (pos 0)
        []
status_average_lost_example =
    status_average_lost clock blank service (at (2 ^ 31 + 1000)) [] busy (2 ^ 31) refl (omega arith)
      (omega arith) (omega arith)
