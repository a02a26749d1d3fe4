-- ===== src/Url/Percent.antt =====
-- `UrlParser::percent_decode`: a loop over the bytes with three states. The stream `result` is the
-- text written to it so far.
pub mod Grammar
pub mod Encoding
use Prim.Native.Nat.{bit_or}
use worker_informer.Base.{
  ℕ, ◌*◌, ◌%◌, ◌^◌, [], ◌∷◌, ◌++◌, ◌≡◌, refl, not, ◌==◌, if◌then◌else◌, Bytes, codes,
}
use worker_informer.Url.Hex.{is_hex_digit, hex_digit_to_int}

pub data State : Type 0 where
  general first_percent_encoded_digit second_percent_encoded_digit : State

pub record Decoder : Type 0 where
  pub state : State
  pub first_char : ℕ
  pub second_char : ℕ
  pub result : Bytes

-- `char((hex_digit_to_int(first_char) << 4) | hex_digit_to_int(second_char))`
unfoldable pub hex_byte : ℕ → ℕ → ℕ
unfolding hex_digit_to_int
hex_byte first second = bit_or (hex_digit_to_int first * 2 ^ 4) (hex_digit_to_int second) % 2 ^ 8

unfoldable pub step_in : State → Decoder → ℕ → Decoder
step_in general d c =
    if not (c == b'%')
    then record d { result = d.result ++ c ∷ [] }
    else record d { state = first_percent_encoded_digit; first_char = 0; second_char = 0 }
step_in first_percent_encoded_digit d c =
    if is_hex_digit c
    then record d { first_char = c; state = second_percent_encoded_digit }
    else record d { first_char = c; result = d.result ++ b'%' ∷ c ∷ []; state = general }
step_in second_percent_encoded_digit d c =
    if is_hex_digit c
    then record d {
      second_char = c;
      result = d.result ++ hex_byte d.first_char c ∷ [];
      state = general;
    }
    else record d {
      second_char = c;
      result = d.result ++ b'%' ∷ d.first_char ∷ c ∷ [];
      state = general;
    }

abbrev pub step : Decoder → ℕ → Decoder
step d c = step_in d.state d c

abbrev pub start : Decoder
start = record { state = general; first_char = 0; second_char = 0; result = [] }

unfoldable pub run : Decoder → Bytes → Decoder
run d [] = d
run d (c ∷ s) = run (step d c) s

unfoldable pub percent_decode : Bytes → Bytes
unfolding run
percent_decode s = (run start s).result
