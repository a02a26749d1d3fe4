-- ===== src/Url/Query/RoundTrip.antt =====
-- A client that writes names and percent-encoded values is understood.
use worker_informer.Base.{
  ◌<◌, inl, some, [], ◌∷◌, ◌++◌, ◌≡◌, ◌≢◌, refl, ◌∙◌, if◌then◌else◌, arith, Bytes, length, Lacks,
  All, All-append, AllBytes, insert, lookup, lookup-insert, equal,
}
use worker_informer.Url.Percent.{percent_decode}
use worker_informer.Url.Percent.Encoding.{
  percent_encode, is_unreserved, percent_encode-Lacks, percent_decode-percent_encode,
}
use worker_informer.Url.Query.Strings.{npos}
use worker_informer.Url.Query.{ParamMap, parse, param}
use worker_informer.Url.Query.Grammar.{Query, stop, last, more, assign}
use worker_informer.Url.Query.Parse.{parse-Query}

-- `name=value&name=value…`, the values percent-encoded.
abbrev pub query_string : ParamMap → Bytes
query_string [] = []
query_string ((k, v) ∷ []) = k ++ b'=' ∷ percent_encode v
query_string ((k, v) ∷ p ∷ ps) = k ++ b'=' ∷ (percent_encode v ++ b'&' ∷ query_string (p ∷ ps))

-- Names hold no `=` and no `?`; values are any bytes.
abbrev pub IsWritable : Bytes × Bytes → Type 0
IsWritable (k, v) = Lacks b'=' k × Lacks b'?' k × AllBytes v

-- The last value under a name.
abbrev pub latest : Bytes → ParamMap → Bytes → Bytes
latest name [] value = value
latest name ((k, v) ∷ ps) value = latest name ps (if equal k name then v else value)

abbrev raw : ParamMap → ParamMap
raw [] = []
raw ((k, v) ∷ ps) = (k, percent_encode v) ∷ raw ps

encoded_no_ampersand : (v : Bytes) → AllBytes v → Lacks b'&' (percent_encode v)
encoded_no_ampersand = percent_encode-Lacks b'&' (unfold is_unreserved in refl) (omega arith)

encoded_no_question : (v : Bytes) → AllBytes v → Lacks b'?' (percent_encode v)
encoded_no_question = percent_encode-Lacks b'?' (unfold is_unreserved in refl) (omega arith)

Query-query_string : (ps : ParamMap) → All IsWritable ps → Query (query_string ps) (raw ps)
Query-query_string [] h = stop tt
Query-query_string ((k, v) ∷ []) ((hk, hq, hv), h) = last refl hk (encoded_no_ampersand v hv)
Query-query_string ((k, v) ∷ p ∷ ps) ((hk, hq, hv), h) =
    more refl hk (encoded_no_ampersand v hv) (Query-query_string (p ∷ ps) h)

query_string-Lacks : (ps : ParamMap) → All IsWritable ps → Lacks b'?' (query_string ps)
query_string-Lacks [] h = tt
query_string-Lacks ((k, v) ∷ []) ((hk, hq, hv), h) =
    All-append (λ c. c ≢ b'?') k _ hq (omega arith, encoded_no_question v hv)
query_string-Lacks ((k, v) ∷ p ∷ ps) ((hk, hq, hv), h) =
    All-append (λ c. c ≢ b'?') k _ hq
      (
        omega arith,
        All-append (λ c. c ≢ b'?') (percent_encode v) _ (encoded_no_question v hv)
            (omega arith, query_string-Lacks (p ∷ ps) h),
      )

param-insert :
    (k v name : Bytes) (m : ParamMap)
    → param (insert k v m) name ≡ (if equal k name then v else param m name)
unfolding param
param-insert k v name m = ground (arith, lookup-insert m k name v)

param-assign :
    (ps m : ParamMap) (name : Bytes)
    → All IsWritable ps
    → param (assign (raw ps) m) name ≡ latest name ps (param m name)
param-assign [] m name h = refl
param-assign ((k, v) ∷ ps) m name ((hk, hq, hv), h) =
    param-assign ps (insert k (percent_decode (percent_encode v)) m) name h
    ∙ rw (percent_decode-percent_encode v hv, param-insert)

-- A query text that a client writes from names and values, the values percent-encoded, is parsed,
-- and each parameter is then the last value written under its name, or the empty text. The names hold no
-- `=` and no `?`, the values are any bytes, and the text is shorter than 2^64 - 1 bytes.
pub parse-query_string :
    (ps : ParamMap)
    → All IsWritable ps
    → length (query_string ps) < npos
    → (m : ParamMap) × (parse (query_string ps) ≡ some m)
      × ((name : Bytes) → param m name ≡ latest name ps [])
parse-query_string ps h fits = (
  assign (raw ps) [],
  parse-Query (query_string ps) (query_string ps) fits (inl (query_string-Lacks ps h, refl))
      (Query-query_string ps h),
  λ name. param-assign ps [] name h ∙ unfold param lookup in refl,
)
