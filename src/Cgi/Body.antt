-- ===== src/Cgi/Body.antt =====
-- The body of a request, as `CgiService::ProcessRequest` reads it by CONTENT_LENGTH.
use worker_informer.Base.{
  c_string, strtol, to_unsigned_long, subst, append-nil, ℕ, zero, suc, ◌-◌, ◌≤◌, [], ◌∷◌, ◌++◌, ◌≡◌,
  refl, ap, ◌==◌, ltb, Bool-cases, inl, inr, if◌then◌else◌, arith, Bytes, length, length-append,
  length-replicate, replicate, Option, none, some,
}

-- `STDIN_MAX`
abbrev pub stdin_max : ℕ
stdin_max = 6000000

-- The length that is read: a text that spells no number only leaves a warning in the log.
unfoldable pub content_length : Bytes → ℕ
unfolding strtol
content_length header =
    let n = to_unsigned_long (strtol header).0 in if ltb stdin_max n then stdin_max else n

-- `std::string::resize`
unfoldable pub resize : ℕ → Bytes → ℕ → Bytes
resize zero s c = []
resize (suc n) [] c = c ∷ resize n [] c
resize (suc n) (x ∷ s) c = x ∷ resize n s c

-- The buffer of `n` bytes, filled with spaces and then with what `FCGX_GetStr` delivers.
abbrev pub buffer : ℕ → Bytes → Bytes
buffer n delivered = delivered ++ replicate (n - length delivered) b' '

-- The text of the body. No NUL is put behind the buffer, so that the text is read on into the
-- memory `beyond` it.
unfoldable pub read_body : ℕ → Bytes → Bytes → Bytes
unfolding c_string resize
read_body n delivered beyond =
    if ltb 0 n then resize n (c_string (buffer n delivered ++ beyond)) 0 else []

-- The whole of it: no body is read where the server gives no CONTENT_LENGTH.
unfoldable pub read_post : Option Bytes → Bytes → Bytes → Bytes
unfolding content_length read_body
read_post none delivered beyond = []
read_post (some header) delivered beyond = read_body (content_length header) delivered beyond

content_length-le : (header : Bytes) → content_length header ≤ stdin_max
unfolding content_length
content_length-le header = ground arith

length-resize : (n : ℕ) (s : Bytes) (c : ℕ) → length (resize n s c) ≡ n
unfolding resize
length-resize zero s c = refl
length-resize (suc n) [] c = ap suc (length-resize n [] c)
length-resize (suc n) (x ∷ s) c = ap suc (length-resize n s c)

pub length-read_post :
    (header : Option Bytes) (delivered beyond : Bytes)
    → length (read_post header delivered beyond) ≤ stdin_max
unfolding read_post read_body
length-read_post none delivered beyond = ground arith
length-read_post (some header) delivered beyond = ground (
  arith,
  content_length-le header,
  length-resize (content_length header)
      (c_string (buffer (content_length header) delivered ++ beyond)) 0,
)

-- What lies behind the first `length s` bytes does not show.
resize-c_string :
    (s beyond : Bytes) (c : ℕ)
    → resize (length s) (c_string (s ++ beyond)) c ≡ resize (length s) (c_string s) c
unfolding resize c_string
resize-c_string [] beyond c = refl
resize-c_string (x ∷ s) beyond c = elim (Bool-cases (x == 0)) [
  | inl e ↦ rw e
  | inr e ↦ rw e (ap (◌∷◌ x) (resize-c_string s beyond c))
]

length-buffer : (n : ℕ) (delivered : Bytes) → length delivered ≤ n → length (buffer n delivered) ≡ n
length-buffer n delivered h = omega (
  arith,
  length-append {0} delivered (replicate (n - length delivered) b' '),
  length-replicate {0} {A = ℕ} (n - length delivered) b' ',
)

read_body_beyond :
    (n : ℕ) (delivered beyond : Bytes)
    → length delivered ≤ n
    → resize n (c_string (buffer n delivered ++ beyond)) 0
      ≡ resize n (c_string (buffer n delivered)) 0
read_body_beyond n delivered beyond h =
    subst
      (λ m.
        resize m (c_string (buffer n delivered ++ beyond)) 0
        ≡ resize m (c_string (buffer n delivered)) 0)
      (length-buffer n delivered h) (resize-c_string (buffer n delivered) beyond 0)

-- Whatever CONTENT_LENGTH says, a negative or an absurd number included, at most 6000000 bytes are
-- read. Where `FCGX_GetStr` delivers no more bytes than it was asked for, the text of the body is as
-- long as that, and does not depend on the memory behind the buffer.
pub read_post_lem :
    (header delivered beyond : Bytes)
    → length delivered ≤ content_length header
    → (content_length header ≤ stdin_max)
      × (length (read_post (some header) delivered beyond) ≡ content_length header)
      × (read_post (some header) delivered beyond ≡ read_post (some header) delivered [])
unfolding read_post read_body
read_post_lem header delivered beyond h =
    let n = content_length header in
    (
      content_length-le header,
      elim (Bool-cases (ltb 0 n)) [
        | inl e ↦ rw e (length-resize n _ 0)
        | inr e ↦ rw e (ground arith)
      ],
      elim (Bool-cases (ltb 0 n)) [
        | inl e ↦ rw (e, append-nil) (read_body_beyond n delivered beyond h)
        | inr e ↦ rw e
      ],
    )
