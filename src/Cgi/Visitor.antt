-- ===== src/Cgi/Visitor.antt =====
-- The visitor's number, which `CgiService::ProcessRequest` takes from the cookie, or from the clock.
use worker_informer.Base.{
  finds, is_digit, ℕ, true, false, Option, none, some, List, [], ◌∷◌, ◌≡◌, Bool-cases, Option-cases,
  inl, inr, if◌then◌else◌, Bytes, All, is_empty,
}

-- The second part of a piece that `=` splits in two.
abbrev pub second_of_two : List Bytes → Bytes → Bytes
second_of_two (name ∷ value ∷ []) old = value
second_of_two _ old = old

module _
    -- `boost::split` at one character, `u32regex_replace` of `[^0-9]` by nothing (`none` is an
    -- exception), and `cfg->cookie_name_`.
    (split : ℕ → Bytes → List Bytes) (replace_symbol : Bytes → Option Bytes)
    (cookie_name : Bytes) where
  -- The pieces from the left: the last one that counts is kept.
  unfoldable pub cookie_value : List Bytes → Bytes → Bytes
  unfolding finds
  cookie_value [] old = old
  cookie_value (piece ∷ pieces) old =
      cookie_value pieces
        (if finds cookie_name piece then second_of_two (split b'=' piece) old else old)

  abbrev pub from_cookie : Option Bytes → Bytes
  from_cookie none = []
  from_cookie (some text) = cookie_value (split b';' text) []

  abbrev pub replaced : Option Bytes → Bytes
  replaced none = []
  replaced (some s) = s

  -- The second text is `time(NULL)`, printed.
  unfoldable pub visitor : Option Bytes → Bytes → Bytes
  unfolding cookie_value
  visitor http_cookie time =
      let value = replaced (replace_symbol (from_cookie http_cookie)) in
      if is_empty value then time else value

  -- A visitor's number is written in digits and has at least one, whatever the cookie holds. The
  -- clock's text is assumed to be such a number, and the regular expression to leave digits only.
  pub visitor-All :
      (http_cookie : Option Bytes) (time : Bytes)
      → ((s t : Bytes) → replace_symbol s ≡ some t → All (λ c. is_digit c ≡ true) t)
      → All (λ c. is_digit c ≡ true) time
      → is_empty time ≡ false
      → All (λ c. is_digit c ≡ true) (visitor http_cookie time)
        × (is_empty (visitor http_cookie time) ≡ false)
  unfolding visitor
  visitor-All http_cookie time digits clock nonempty =
      elim (Option-cases (replace_symbol (from_cookie http_cookie))) [
        | inl e ↦ rw e (clock, nonempty)
        | inr (t, e) ↦ elim (Bool-cases (is_empty t)) [
          | inl h ↦ rw (e, h) (clock, nonempty)
          | inr h ↦ rw (e, h) (digits _ t e, h)
        ]
      ]
