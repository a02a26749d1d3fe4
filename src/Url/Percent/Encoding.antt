-- ===== src/Url/Percent/Encoding.antt =====
-- The percent encoding of RFC 3986, with upper case digits, and that `percent_decode` undoes it.
use worker_informer.Base.{
  ℕ, ◌+◌, ◌/◌, ◌%◌, ◌<◌, Bool, true, false, [], ◌∷◌, ◌++◌, ◌≡◌, ◌≢◌, refl, sym, ◌&&◌, ◌||◌, ◌==◌,
  ==_iff, leb, ltb, if◌then◌else◌, arith, Bytes, AllBytes, Bool-cases, passes_under,
  of_passes_under, inl, inr, Lacks, All-append, contains,
}
use worker_informer.Url.Hex.{is_hex_digit}
use worker_informer.Url.Percent.{hex_byte, percent_decode}
use worker_informer.Url.Percent.Grammar.{Decodes, done, plain, escaped, percent_decode-Decodes}

abbrev within : ℕ → ℕ → ℕ → Bool
within lo hi c = leb lo c && leb c hi

-- The unreserved characters of RFC 3986.
unfoldable pub is_unreserved : ℕ → Bool
is_unreserved c =
    within b'0' b'9' c
    || within b'A' b'Z' c
    || within b'a' b'z' c
    || c == b'-'
    || c == b'.'
    || c == b'_'
    || c == b'~'

unfoldable pub hex_digit : ℕ → ℕ
hex_digit n = if ltb n 10 then b'0' + n else 55 + n

unfoldable pub encode_byte : ℕ → Bytes
unfolding is_unreserved hex_digit
encode_byte c =
    if is_unreserved c then c ∷ [] else b'%' ∷ hex_digit (c / 16) ∷ hex_digit (c % 16) ∷ []

unfoldable pub percent_encode : Bytes → Bytes
unfolding encode_byte
percent_encode [] = []
percent_encode (c ∷ s) = encode_byte c ++ percent_encode s

is_hex_digit-hex_digit : (n : ℕ) → n < 16 → is_hex_digit (hex_digit n) ≡ true
is_hex_digit-hex_digit n h =
    of_passes_under (λ n. is_hex_digit (hex_digit n)) 16 n h
      (unfold passes_under is_hex_digit contains hex_digit in refl)

hex_byte-hex_digit_table :
    passes_under (λ c. hex_byte (hex_digit (c / 16)) (hex_digit (c % 16)) == c) 256 ≡ true
unfolding passes_under hex_byte hex_digit
hex_byte-hex_digit_table = refl

hex_byte-hex_digit : (c : ℕ) → c < 256 → hex_byte (hex_digit (c / 16)) (hex_digit (c % 16)) ≡ c
hex_byte-hex_digit c h = (==_iff _ c).0 (of_passes_under _ 256 c h hex_byte-hex_digit_table)

unreserved_ne_percent : (c : ℕ) → is_unreserved c ≡ true → c ≢ b'%'
unfolding is_unreserved
unreserved_ne_percent c h = ground arith

Decodes-percent_encode : (s : Bytes) → AllBytes s → Decodes (percent_encode s) s
unfolding percent_encode
Decodes-percent_encode [] h = done
Decodes-percent_encode (c ∷ s) (h, hs) = elim (Bool-cases (is_unreserved c)) [
  | inl u ↦ rw u (plain (unreserved_ne_percent c u) (Decodes-percent_encode s hs))
  | inr e ↦ rw e (
      escaped refl (is_hex_digit-hex_digit (c / 16) (omega arith))
        (is_hex_digit-hex_digit (c % 16) (omega arith)) (sym (hex_byte-hex_digit c h))
        (Decodes-percent_encode s hs))
]

-- Decoding the percent encoding of any bytes gives these bytes.
pub percent_decode-percent_encode : (s : Bytes) → AllBytes s → percent_decode (percent_encode s) ≡ s
percent_decode-percent_encode s h =
    sym ((percent_decode-Decodes (percent_encode s)).1 s (Decodes-percent_encode s h))

is_unreserved-hex_digit : (n : ℕ) → n < 16 → is_unreserved (hex_digit n) ≡ true
is_unreserved-hex_digit n h =
    of_passes_under (λ n. is_unreserved (hex_digit n)) 16 n h
      (unfold passes_under is_unreserved hex_digit in refl)

module _ (b : ℕ) (reserved : is_unreserved b ≡ false) (no_percent : b ≢ b'%') where
  ne_reserved : (c : ℕ) → is_unreserved c ≡ true → c ≢ b
  ne_reserved c u e = let both : is_unreserved b ≡ true = rw (← e) u in cc

  encode_byte-Lacks : (c : ℕ) → c < 256 → Lacks b (encode_byte c)
  unfolding encode_byte
  encode_byte-Lacks c h = elim (Bool-cases (is_unreserved c)) [
    | inl u ↦ rw u (ne_reserved c u, tt)
    | inr e ↦ rw e (
      (λ p. no_percent (sym p)),
      (
        ne_reserved _ (is_unreserved-hex_digit (c / 16) (omega arith)),
        (ne_reserved _ (is_unreserved-hex_digit (c % 16) (omega arith)), tt),
      ),
    )
  ]

  -- An encoded text holds no reserved byte but the percent sign.
  pub percent_encode-Lacks : (s : Bytes) → AllBytes s → Lacks b (percent_encode s)
  unfolding percent_encode
  percent_encode-Lacks [] h = tt
  percent_encode-Lacks (c ∷ s) (h, hs) =
      All-append (λ x. x ≢ b) (encode_byte c) (percent_encode s) (encode_byte-Lacks c h)
        (percent_encode-Lacks s hs)
