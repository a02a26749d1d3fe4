-- ===== src/Url/Hex.antt =====
-- `UrlParser::is_hex_digit` and `UrlParser::hex_digit_to_int`.
use worker_informer.Base.{ℕ, Bool, ◌||◌, ◌==◌, if◌then◌else◌, contains, codes}

unfoldable pub is_hex_digit : ℕ → Bool
unfolding contains
is_hex_digit c = contains c (codes "0123456789aAbBcCdDeEfF")

unfoldable pub hex_digit_to_int : ℕ → ℕ
hex_digit_to_int c =
    if c == b'0'
    then 0
    else if c == b'1'
    then 1
    else if c == b'2'
    then 2
    else if c == b'3'
    then 3
    else if c == b'4'
    then 4
    else if c == b'5'
    then 5
    else if c == b'6'
    then 6
    else if c == b'7'
    then 7
    else if c == b'8'
    then 8
    else if c == b'9'
    then 9
    else if c == b'a' || c == b'A'
    then 10
    else if c == b'b' || c == b'B'
    then 11
    else if c == b'c' || c == b'C'
    then 12
    else if c == b'd' || c == b'D'
    then 13
    else if c == b'e' || c == b'E'
    then 14
    else if c == b'f' || c == b'F'
    then 15
    else 0
