-- ===== src/Cgi/Threads/Tests.antt =====
-- Two threads and two requests, and the theorems at them.
use worker_informer.Base.{
  ℕ, ◌==◌, if◌then◌else◌, inl, inr, Bool-cases, Bytes, is_empty, true, false, some, List, [], ◌∷◌,
  ◌≡◌, refl, arith, equal, codes, insert, lookup, is_digit, strtol, c_string, All,
}
use worker_informer.Url.Hex.{is_hex_digit}
use worker_informer.Url.Percent.{percent_decode, run, step_in, hex_byte}
use worker_informer.Url.Query.Strings.{find_first_of, find_at, substr}
use worker_informer.Url.Query.{parse, param}
use worker_informer.Core.Sample.{settings}
use worker_informer.Cgi.Body.{read_post, content_length}
use worker_informer.Cgi.Visitor.{visitor}
use worker_informer.Cgi.Request.{
  Request, Libraries, page, ended, send_page, serve_query, process_request,
}
use worker_informer.Cgi.Sample.{libraries, initial, request}
use worker_informer.Cgi.Loop.{IsServable}
use worker_informer.Cgi.Threads.{
  Service, start, Step, lock, accept, unlock, look_up, answer, Reach, here, next, changed,
}
use worker_informer.Cgi.Threads.Shared.{inside}
use worker_informer.Cgi.Threads.Mutex.{threads-exclusive}
use worker_informer.Cgi.Threads.Progress.{threads-Moves}

abbrev asked : Request
asked = request (some (codes "show=status"))

answered :
    process_request libraries (settings false) (codes "v") asked [] initial
    ≡ ended (page (codes "ok") [] ∷ []) [] initial
unfolding process_request serve_query send_page parse find_first_of find_at substr percent_decode
    run step_in hex_byte is_hex_digit insert equal lookup param read_post content_length strtol
    c_string visitor is_digit
answered = refl

abbrev rs : List Request
rs = asked ∷ asked ∷ []

rs-IsServable : All IsServable rs
rs-IsServable = (one, (one, tt))
  where
    one : IsServable asked
    one =
        (refl, refl, (codes "show=status", codes "::1", codes "/i", refl, refl, refl, omega arith))

abbrev begin : Service ℕ
begin = start rs (λ i. initial) []

abbrev libs : ℕ → Libraries ℕ
libs m = record libraries { status_page = λ name. if m == 0 then codes "ok" else codes "later" }

-- The first thread takes a request and looks at the page; then the page changes.
looked_up : (s : Service ℕ) × Reach libs (settings false) (codes "v") 2 begin s
looked_up = (
  _,
  changed
      (next
        (next
          (next (next here (lock {i = 0} (omega arith) refl refl refl))
            (accept {i = 0} (omega arith) refl refl refl))
          (unlock {i = 0} (omega arith) refl refl))
        (look_up {i = 0} (omega arith) refl refl))
      refl,
)

-- It answers with the page from before; the second one has the mutex then.
one_done :
    (s : Service ℕ) × Reach libs (settings false) (codes "v") 2 looked_up.0 s
    × Reach libs (settings false) (codes "v") 2 begin s
    × (s.finished ≡ asked ∷ [])
    × (s.waiting ≡ asked ∷ [])
    × (s.sent ≡ page (codes "ok") [] ∷ [])
    × (inside (s.place 1) ≡ true)
unfolding looked_up
one_done = (
  _,
  next (next here (answer {i = 0} (omega arith) refl answered refl refl))
      (lock {i = 1} (omega arith) refl refl refl),
  next (next looked_up.1 (answer {i = 0} (omega arith) refl answered refl refl))
      (lock {i = 1} (omega arith) refl refl refl),
  refl,
  refl,
  refl,
  refl,
)

never_empty : (m : ℕ) (name : Bytes) → is_empty ((libs m).status_page name) ≡ false
never_empty m name = elim (Bool-cases (m == 0)) [ inl e ↦ rw e refl | inr e ↦ rw e refl ]

threads-exclusive_example : ◌≡◌ {A = ℕ} 1 1
threads-exclusive_example =
    threads-exclusive libs (settings false) (codes "v") 2 rs (λ i. initial) [] one_done.0 1 1
      one_done.2 (omega arith) (omega arith) one_done.6 one_done.6

threads-Moves_example : (t : Service ℕ) × Step libs (settings false) (codes "v") 2 one_done.0 t
unfolding one_done looked_up
threads-Moves_example =
    threads-Moves libs (settings false) (codes "v") 2 refl never_empty rs (λ i. initial) []
      one_done.0 0 asked [] rs-IsServable (λ j a h. refl) one_done.2 (omega arith) refl
      (omega arith) refl
