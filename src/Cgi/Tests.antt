-- ===== src/Cgi/Tests.antt =====
-- Requests to a server, and the theorems at these inputs.
use worker_informer.Base.{
  c_string, ◌++◌, ◌≢◌, ◌↔◌, ◌<◌, ltb, atoi, is_digit, strtol, ℕ, ◌≤◌, pos, true, false, some, [],
  ◌∷◌, ◌≡◌, inl, inr, refl, arith, equal, Bytes, codes, length, All, insert, lookup, Bool-cases,
}
use worker_informer.Url.Hex.{is_hex_digit}
use worker_informer.Url.Percent.{percent_decode, run, step_in, hex_byte}
use worker_informer.Url.Query.Strings.{find_first_of, find_at, substr}
use worker_informer.Url.Query.{parse, param}
use worker_informer.Core.Informer.{new_informer}
use worker_informer.Core.State.{State}
use worker_informer.Core.Process.{get_informer, text_for}
use worker_informer.Core.Sample.{settings, outside, query_row}
use worker_informer.Cgi.Body.{content_length, read_post, read_post_lem, stdin_max}
use worker_informer.Cgi.Visitor.{visitor}
use worker_informer.Cgi.Request.{
  Libraries, Answer, page, status, ended, died, request_params, process_request,
}
use worker_informer.Cgi.Open.{is_negative, serving, create_threads, open_service, open_service_iff}
use worker_informer.Cgi.Sample.{digits_of, split_at, clock, libraries, initial, request}
use worker_informer.Cgi.Leak.{process_request_thrown}
use worker_informer.Cgi.Replies.{IsAnsweredBy}
use worker_informer.Cgi.Expected.{IsDue}
use worker_informer.Cgi.Printed.{crlf, headers, body, read_message, answer_text, answer_text-read}
use worker_informer.Cgi.Answers.{process_request-IsDue, process_request_died}

negative : content_length (codes " -1") ≡ stdin_max
unfolding content_length
negative = refl

trailing : strtol (codes "+12x") ≡ (pos 12, codes "x")
unfolding strtol
trailing = refl

-- The body holds as many bytes as CONTENT_LENGTH says: the text is read on behind it, until a NUL.
cut_back : read_post (some (codes "2")) (codes "ab") (codes "cd") ≡ codes "ab"
unfolding read_post
cut_back = refl

read_post_lem_example :
    (content_length (codes "3") ≤ stdin_max)
    × (length (read_post (some (codes "3")) (codes "a=b") (codes "zz"))
        ≡ content_length (codes "3"))
    × (read_post (some (codes "3")) (codes "a=b") (codes "zz")
        ≡ read_post (some (codes "3")) (codes "a=b") [])
read_post_lem_example =
    read_post_lem (codes "3") (codes "a=b") (codes "zz") (unfold content_length in omega arith)

digits_of-All : (s : Bytes) → All (λ c. is_digit c ≡ true) (digits_of s)
digits_of-All [] = tt
digits_of-All (c ∷ s) = elim (Bool-cases (is_digit c)) [
  | inl e ↦ rw e (e, digits_of-All s)
  | inr e ↦ rw e (digits_of-All s)
]

-- The number of the cookie `v`, the last one.
last_cookie :
    visitor split_at (λ s. some (digits_of s)) (codes "v") (some (codes "v=1; a=2;v=x34")) clock
    ≡ codes "34"
unfolding visitor is_digit
last_cookie = refl

process_request-IsDue_example :
    (a : Answer) × IsDue libraries
      (settings false)
      (codes "v")
      (request (some (codes "scr=x&show=status")))
      []
      a
    × IsAnsweredBy libraries
        (settings false)
        (codes "v")
        (request (some (codes "scr=x&show=status")))
        a
        (process_request libraries
          (settings false)
          (codes "v")
          (request (some (codes "scr=x&show=status")))
          []
          initial)
process_request-IsDue_example =
    process_request-IsDue libraries (settings false) (codes "v")
      (request (some (codes "scr=x&show=status"))) (codes "scr=x&show=status") (codes "::1")
      (codes "/i") [] initial refl refl refl refl refl (omega arith) refl (λ a h. refl) (λ n. refl)

parsed_ab : parse (codes "scr=ab") ≡ some ((codes "scr", codes "ab") ∷ [])
unfolding parse find_first_of find_at substr percent_decode run step_in hex_byte is_hex_digit insert
    equal
parsed_ab = refl

parsed_x : parse (codes "scr=x") ≡ some ((codes "scr", codes "x") ∷ [])
unfolding parse find_first_of find_at substr percent_decode run step_in hex_byte is_hex_digit insert
    equal
parsed_x = refl

process_request_died_example :
    process_request libraries
      (settings true)
      (codes "v")
      (request (some (codes "scr=x")))
      []
      initial
    ≡ died (page (codes "error") (codes "17") ∷ [])
process_request_died_example =
    process_request_died libraries (settings true) (codes "v") (request (some (codes "scr=x")))
      (codes "scr=x") (codes "::1") (codes "/i") [] initial ((codes "scr", codes "x") ∷ []) refl
      refl refl refl refl (omega arith) parsed_x (unfold param lookup equal in refl)
      (unfold param lookup equal in refl) refl refl (unfold visitor is_digit in refl)

-- The format of the page throws.
abbrev broken : Libraries ℕ
broken = record libraries { outside = outside true }

process_request_thrown_example :
    (s' : State ℕ) × (process_request broken
        (settings true)
        (codes "v")
        (request (some (codes "scr=ab")))
        []
        initial
      ≡ ended (status 503 ∷ []) [] s')
    × (s'.cell 4 ≡ some (new_informer 5 query_row))
    × (s'.request_processed ≡ 0)
    × ((other : Bytes)
        → ((get_informer broken.outside (settings true) other s').1.informer ≢ some 4)
          × ((get_informer broken.outside (settings true) other s').1.cell 4
              ≡ some (new_informer 5 query_row)))
process_request_thrown_example =
    process_request_thrown broken (settings true) (codes "v") (request (some (codes "scr=ab")))
      (codes "scr=ab") (codes "::1") (codes "/i") [] initial ((codes "scr", codes "ab") ∷ [])
      query_row refl refl refl refl refl (omega arith) parsed_ab (unfold param lookup equal in refl)
      (unfold param lookup equal in refl) (unfold param lookup equal in refl)
      (unfold param lookup equal text_for new_informer request_params in refl)

answer_text-read_example :
    read_message [] (answer_text (page (codes "<p>") (codes "v=1")))
    ≡ some (headers (page (codes "<p>") (codes "v=1")), body (page (codes "<p>") (codes "v=1")))
answer_text-read_example =
    answer_text-read (page (codes "<p>") (codes "v=1"))
      (omega arith, (omega arith, (omega arith, tt)))

-- A line feed in a cookie would end the headers.
split_cookie :
    read_message [] (answer_text (page (codes "<p>") (codes "v" ++ 10 ∷ 10 ∷ codes "x")))
    ≢ some (headers (page (codes "<p>") (codes "v" ++ 10 ∷ 10 ∷ codes "x")), codes "<p>" ++ crlf)
unfolding read_message answer_text c_string
split_cookie e = cc

open_service_iff_example :
    (open_service (λ path backlog. pos 3) (λ i. ltb i 5) (pos 2) (codes "/s") ≡ serving (pos 3) 2)
    ↔ ((pos 3 ≡ pos 3)
        × (is_negative (pos 3) ≡ false)
        × (◌≡◌ {A = ℕ} 2 2)
        × ((i : ℕ) → i < 2 → ltb i 5 ≡ true))
open_service_iff_example =
    open_service_iff (λ path backlog. pos 3) (λ i. ltb i 5) 2 2 (codes "/s") (pos 3) (omega arith)

-- A setting that is no number is 0: the service runs, and no thread serves.
no_thread :
    open_service (λ path backlog. pos 3) (λ i. true) (atoi (codes "four")) [] ≡ serving (pos 3) 0
unfolding open_service create_threads strtol
no_thread = refl
