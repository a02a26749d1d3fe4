-- ===== src/Url/Tests.antt =====
-- Runs of the parser, and the theorems at concrete inputs.
use worker_informer.Base.{
  ap, length, ◌≢◌, some, [], ◌∷◌, ◌≡◌, refl, arith, Bytes, codes, equal, insert,
}
use worker_informer.Url.Hex.{is_hex_digit}
use worker_informer.Url.Percent.{percent_decode, run, step_in, hex_byte}
use worker_informer.Url.Percent.Grammar.{Decodes, percent_decode-Decodes}
use worker_informer.Url.Percent.Encoding.{percent_encode, percent_decode-percent_encode}
use worker_informer.Url.Query.Strings.{find_first_of, find_at, substr}
use worker_informer.Url.Query.{ParamMap, parse, param}
use worker_informer.Url.Query.Grammar.{Query, assign}
use worker_informer.Url.Query.Parse.{IsQueryText, parse_total}
use worker_informer.Url.Query.Order.{param_set, swap, parse-Reordered}
use worker_informer.Url.Query.RoundTrip.{query_string, latest, parse-query_string}

abbrev escapes : Bytes
escapes = codes "a%20b%4"

decoded : percent_decode escapes ≡ codes "a b"
unfolding percent_decode run step_in hex_byte is_hex_digit
decoded = refl

malformed : percent_decode (codes "%zz%4g%%41") ≡ codes "%zz%4g%%41"
unfolding percent_decode run step_in hex_byte is_hex_digit
malformed = refl

percent_decode-Decodes_example :
    Decodes escapes (percent_decode escapes)
    × ((t : Bytes) → Decodes escapes t → t ≡ percent_decode escapes)
percent_decode-Decodes_example = percent_decode-Decodes escapes

percent_decode-percent_encode_example :
    percent_decode (percent_encode (codes "a b&c")) ≡ codes "a b&c"
percent_decode-percent_encode_example = percent_decode-percent_encode (codes "a b&c") (omega arith)

abbrev url : Bytes
url = codes "/i?scr=AB%2D1&show=status&x"

parsed : parse url ≡ some ((codes "scr", codes "AB-1") ∷ (codes "show", codes "status") ∷ [])
unfolding parse find_first_of find_at substr percent_decode run step_in hex_byte is_hex_digit insert
    equal
parsed = refl

-- A raw question mark inside a value drops all the parameters before it.
question_in_value : parse (codes "show=status&u=/x?y=1") ≡ some ((codes "y", codes "1") ∷ [])
unfolding parse find_first_of find_at substr percent_decode run step_in hex_byte is_hex_digit insert
    equal
question_in_value = refl

parse_total_example :
    (s : Bytes) × (ps : ParamMap) × IsQueryText url s
    × Query s ps
    × (parse url ≡ some (assign ps []))
parse_total_example = parse_total url (omega arith)

abbrev written : ParamMap
written =
    (codes "scr", codes "a=b&c") ∷ (codes "test", codes "true") ∷ (codes "scr", codes "?") ∷ []

parse-query_string_example :
    (m : ParamMap) × (parse (query_string written) ≡ some m)
    × ((name : Bytes) → param m name ≡ latest name written [])
parse-query_string_example =
    parse-query_string written (omega arith) (unfold percent_encode in omega arith)

abbrev shown : ParamMap
shown = (codes "scr", codes "a b") ∷ (codes "show", codes "&") ∷ []

abbrev turned : ParamMap
turned = (codes "show", codes "&") ∷ (codes "scr", codes "a b") ∷ []

different : codes "scr" ≢ codes "show"
different e =
    let h : length (codes "scr") ≡ length (codes "show") = ap length e in absurd (omega arith)

parse-Reordered_example :
    (m : ParamMap) × (m' : ParamMap) × (parse (query_string shown) ≡ some m)
    × (parse (query_string turned) ≡ some m')
    × (param_set m ≡ param_set m')
parse-Reordered_example =
    parse-Reordered shown turned (swap different) (omega arith)
      (unfold percent_encode in omega arith) (unfold percent_encode in omega arith)
