-- ===== src/Cgi/Printed.antt =====
-- The texts that the two `Response` functions of src/CgiService.cpp print for a web server.
use worker_informer.Base.{
  ℕ, suc, ◌^◌, ◌<◌, ◌==◌, pos, to_int, to_int_small, print_int, print, digits_of-Digits, false,
  Option, none, some, List, [], ◌∷◌, ◌++◌, append_assoc, ◌≡◌, append-nil, contains, contains-Lacks,
  c_string-Lacks, Digits-Lacks, refl, ap, ◌∙◌, arith, if◌then◌else◌, Bytes, codes, c_string,
  is_empty, All, Lacks, All-append, written,
}
use worker_informer.Cgi.Request.{Answer, page, status}

abbrev pub crlf : Bytes
crlf = 13 ∷ 10 ∷ []

-- The lines that are the same in every response of a kind.
abbrev pub status_ok : Bytes
status_ok = codes "Status: 200 OK"

abbrev pub html : Bytes
html = codes "Content-type: text/html"

abbrev pub no_cache : Bytes
no_cache = codes "Pragma: no-cache"

abbrev pub expires : Bytes
expires = codes "Expires: Fri, 01 Jan 1990 00:00:00 GMT"

abbrev pub cache_control : Bytes
cache_control = codes "Cache-Control: no-cache, must-revalidate, no-cache=\"Set-Cookie\", private"

abbrev line : Bytes → Bytes
line s = s ++ crlf

abbrev pub page_text : Bytes → Bytes → Bytes
page_text content cookie = written (
    line status_ok
    ∷ line html
    ∷ line (codes "Set-Cookie: " ++ c_string cookie)
    ∷ line no_cache
    ∷ line expires
    ∷ line cache_control
    ∷ crlf
    ∷ line (c_string content)
    ∷ [])

-- `%d` of an `unsigned`.
abbrev pub bare_text : ℕ → Bytes
bare_text n = written (
    line (codes "Status: " ++ (print_int (to_int (pos n)) ++ codes " OK"))
    ∷ line html
    ∷ (crlf ++ crlf)
    ∷ [])

unfoldable pub answer_text : Answer → Bytes
answer_text (page content cookie) = page_text content cookie
answer_text (status n) = bare_text n

-- A line without the carriage return at its end.
abbrev chomp : Bytes → Bytes
chomp [] = []
chomp (c ∷ s) = if is_empty s then (if c == 13 then [] else c ∷ []) else c ∷ chomp s

abbrev with_header : Bytes → Option (List Bytes × Bytes) → Option (List Bytes × Bytes)
with_header h none = none
with_header h (some (hs, body)) = some (h ∷ hs, body)

abbrev header_end : Bytes → Bytes → Option (List Bytes × Bytes) → Option (List Bytes × Bytes)
header_end h s rest = if is_empty h then some ([], s) else with_header h rest

-- What a web server makes of such a text: the header lines up to an empty one, and the body. The first
-- argument is the line so far; `none` is a text without an empty line.
unfoldable pub read_message : Bytes → Bytes → Option (List Bytes × Bytes)
read_message l [] = none
read_message l (c ∷ s) =
    let ended = read_message [] s in
    let longer = read_message (l ++ c ∷ []) s in
    if c == 10 then header_end (chomp l) s ended else longer

abbrev pub headers : Answer → List Bytes
headers (page content cookie) =
    status_ok
    ∷ html
    ∷ (codes "Set-Cookie: " ++ c_string cookie)
    ∷ no_cache
    ∷ expires
    ∷ cache_control
    ∷ []
headers (status n) = (codes "Status: " ++ (print n ++ codes " OK")) ∷ html ∷ []

abbrev pub body : Answer → Bytes
body (page content cookie) = c_string content ++ crlf
body (status n) = crlf

chomp_line : (l : Bytes) → chomp (l ++ 13 ∷ []) ≡ l
chomp_line [] = refl
chomp_line (c ∷ []) = refl
chomp_line (c ∷ d ∷ l) = ap (◌∷◌ c) (chomp_line (d ∷ l))

read_message-line :
    (l s rest : Bytes)
    → Lacks 10 s
    → read_message l (s ++ 13 ∷ 10 ∷ rest) ≡ header_end (l ++ s) rest (read_message [] rest)
unfolding read_message
read_message-line l [] rest _ = rw (chomp_line l, append-nil l) refl
read_message-line l (c ∷ s) rest (h, hs) =
    let other : (c == 10) ≡ false = ground arith in
    rw (other, read_message-line (l ++ c ∷ []) s rest hs, append_assoc l (c ∷ []) s) refl

abbrev written_lines : List Bytes → Bytes → Bytes
written_lines [] b = crlf ++ b
written_lines (h ∷ hs) b = h ++ 13 ∷ 10 ∷ written_lines hs b

-- Lines that are neither empty nor broken are read back.
read_message-headers :
    (hs : List Bytes) (b : Bytes)
    → All (λ h. (is_empty h ≡ false) × Lacks 10 h) hs
    → read_message [] (written_lines hs b) ≡ some (hs, b)
read_message-headers [] b _ = unfold read_message in refl
read_message-headers (h ∷ hs) b ((some_text, whole), status_ok) =
    read_message-line [] h (written_lines hs b) whole
    ∙ rw (some_text, read_message-headers hs b status_ok) refl

-- No line is broken where the cookie has no line feed. A status is a number of an `int`.
abbrev pub IsPrintable : Answer → Type 0
IsPrintable (page content cookie) = Lacks 10 cookie
IsPrintable (status n) = n < 2 ^ 31

literal :
    (h : Bytes) → is_empty h ≡ false → contains 10 h ≡ false → (is_empty h ≡ false) × Lacks 10 h
literal h some_text whole = (some_text, contains-Lacks 10 h whole)

headers-IsPrintable :
    (a : Answer) → IsPrintable a → All (λ h. (is_empty h ≡ false) × Lacks 10 h) (headers a)
unfolding contains
headers-IsPrintable (page content cookie) h =
    let front = contains-Lacks 10 (codes "Set-Cookie: ") refl in
    let set_cookie = All-append _ (codes "Set-Cookie: ") _ front (c_string-Lacks 10 cookie h) in
    (
      literal status_ok refl refl,
      (
        literal html refl refl,
        (
          (refl, set_cookie),
          (
            literal no_cache refl refl,
            (literal expires refl refl, (literal cache_control refl refl, tt)),
          ),
        ),
      ),
    )
headers-IsPrintable (status n) h =
    let front = contains-Lacks 10 (codes "Status: ") refl in
    let back = contains-Lacks 10 (codes " OK") refl in
    let number = Digits-Lacks 10 (print n) (omega arith) (digits_of-Digits (suc n) n) in
    let first = All-append _ (codes "Status: ") _ front (All-append _ (print n) _ number back) in
    ((refl, first), (literal html refl refl, tt))

line_front : (h : Bytes) {x y : Bytes} → x ≡ y → line h ++ x ≡ h ++ 13 ∷ 10 ∷ y
line_front h {x} e = append_assoc h crlf x ∙ ap (λ z. h ++ 13 ∷ 10 ∷ z) e

answer_text-lines :
    (a : Answer) → IsPrintable a → answer_text a ≡ written_lines (headers a) (body a)
unfolding answer_text
answer_text-lines (page content cookie) h = line_front status_ok (
    line_front html (
      line_front (codes "Set-Cookie: " ++ c_string cookie) (
        line_front no_cache (
          line_front expires (
            line_front cache_control
              (ap (λ z. 13 ∷ 10 ∷ z) (append-nil (line (c_string content)))))))))
answer_text-lines (status n) h =
    rw (to_int_small n h)
      (line_front (codes "Status: " ++ (print n ++ codes " OK")) (line_front html refl))

-- A web server that reads the printed text of an answer gets the status, the headers and the page back: the
-- cookie's line is the cookie, and what follows the empty line is the page, each up to a NUL. The cookie has
-- no line feed, and the status is a number of an `int`.
pub answer_text-read :
    (a : Answer) → IsPrintable a → read_message [] (answer_text a) ≡ some (headers a, body a)
answer_text-read a h =
    ap (read_message []) (answer_text-lines a h)
    ∙ read_message-headers (headers a) (body a) (headers-IsPrintable a h)
