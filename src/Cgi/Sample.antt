-- ===== src/Cgi/Sample.antt =====
-- A server's requests and libraries, as test data.
use worker_informer.Base.{
  ℕ, pos, false, Option, none, some, List, [], ◌∷◌, ◌==◌, if◌then◌else◌, Bytes, codes, is_digit,
}
use worker_informer.Core.Sample.{outside}
use worker_informer.Core.State.{State}
use worker_informer.Cgi.Request.{Request, Libraries}

abbrev pub cut_at : ℕ → Bytes → Bytes → List Bytes
cut_at c [] piece = piece ∷ []
cut_at c (x ∷ s) piece = elim (cut_at c s []) [
  | [] ↦ []
  | first ∷ rest ↦ if x == c then [] ∷ first ∷ rest else (x ∷ first) ∷ rest
]

abbrev pub split_at : ℕ → Bytes → List Bytes
split_at c s = cut_at c s []

abbrev pub digits_of : Bytes → Bytes
digits_of [] = []
digits_of (c ∷ s) = let rest = digits_of s in if is_digit c then c ∷ rest else rest

abbrev pub clock : Bytes
clock = codes "17"

abbrev pub libraries : Libraries ℕ
libraries = record {
  outside = outside false;
  to_lower = λ s. s;
  split = split_at;
  replace_symbol = λ s. some (digits_of s);
  cookie_text = λ v. some v;
  status_page = λ name. codes "ok";
}

abbrev pub initial : State ℕ
initial = record { cell = λ a. none; next = 4; informer = none; request_processed = 0 }

abbrev pub request : Option Bytes → Request
request query = record {
  error = false;
  error_later = false;
  query_string = query;
  content_length = some (codes "3");
  remote_addr = some (codes "::1");
  script_name = some (codes "/i");
  http_cookie = none;
  server_name = none;
  delivered = codes "a=b";
  beyond = [];
  time = clock;
  old_informer_id_int = pos 0;
  old_capacity = 0;
  old_rating_division = pos 0;
}
