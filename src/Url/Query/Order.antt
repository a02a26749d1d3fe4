-- ===== src/Url/Query/Order.antt =====
-- Parameters as the service sees them: by what `param` returns, whatever the order of the query.
use mathlib.Core.Quot
use mathlib.Core.Quot.{Quot, Quot-set}
use native.Mathlib.Nat.{ℕ_set}
use worker_informer.Base.{
  some, [], ◌∷◌, ◌≡◌, ◌≢◌, refl, sym, ◌∙◌, ap, arith, ◌<◌, if◌then◌else◌, Bytes, length, All, equal,
  equal_iff,
}
use worker_informer.Url.Query.Strings.{npos}
use worker_informer.Url.Query.{ParamMap, parse, param}
use worker_informer.Url.Query.RoundTrip.{query_string, IsWritable, latest, parse-query_string}

abbrev pub SameParams : ParamMap → ParamMap → Type 0
SameParams m m' = (name : Bytes) → param m name ≡ param m' name

-- Maps that `param` does not tell apart are equal.
abbrev pub ParamSet : Type 0
ParamSet = Quot SameParams

abbrev pub param_set : ParamMap → ParamSet
param_set = Quot.mk

-- `param` as a function on these.
unfoldable pub param_of : ParamSet → Bytes → Bytes
param_of s name = Quot.lift (hlevel ℕ_set) (λ m. param m name) (λ m m' h. h name) s

-- Parameters with different names may change places.
pub data Reordered : ParamMap → ParamMap → Type 0 where
  same : {ps : ParamMap} → Reordered ps ps
  keep : {k v : Bytes} {ps qs : ParamMap} → Reordered ps qs → Reordered ((k, v) ∷ ps) ((k, v) ∷ qs)
  swap :
      {k v l w : Bytes} {ps : ParamMap}
      → k ≢ l
      → Reordered ((k, v) ∷ (l, w) ∷ ps) ((l, w) ∷ (k, v) ∷ ps)
  chain : {ps qs rs : ParamMap} → Reordered ps qs → Reordered qs rs → Reordered ps rs

Reordered-IsWritable : {ps qs : ParamMap} → Reordered ps qs → All IsWritable ps → All IsWritable qs
Reordered-IsWritable same h = h
Reordered-IsWritable (keep r) (h, hs) = (h, Reordered-IsWritable r hs)
Reordered-IsWritable (swap other) (h, (k, hs)) = (k, (h, hs))
Reordered-IsWritable (chain r s) h = Reordered-IsWritable s (Reordered-IsWritable r h)

latest-Reordered :
    (name value : Bytes) {ps qs : ParamMap}
    → Reordered ps qs
    → latest name ps value ≡ latest name qs value
latest-Reordered name value same = refl
latest-Reordered name value (keep {k} {v} r) =
    latest-Reordered name (if equal k name then v else value) r
latest-Reordered name value (swap {k} {v} {l} {w} {ps} other) =
    ap (latest name ps) (ground (arith, equal_iff k name, equal_iff l name))
latest-Reordered name value (chain r s) =
    latest-Reordered name value r ∙ latest-Reordered name value s

-- The order of parameters with different names does not matter: a query text and one that a client writes
-- from the same parameters in another order are both parsed, and to the same set of parameters. Those of one
-- name keep their order. Names hold no `=` and no `?`, values are any percent-encoded bytes, and the texts
-- are shorter than 2^64 - 1 bytes.
pub parse-Reordered :
    (ps qs : ParamMap)
    → Reordered ps qs
    → All IsWritable ps
    → length (query_string ps) < npos
    → length (query_string qs) < npos
    → (m : ParamMap) × (m' : ParamMap) × (parse (query_string ps) ≡ some m)
      × (parse (query_string qs) ≡ some m')
      × (param_set m ≡ param_set m')
parse-Reordered ps qs r h fits fits' =
    let (m, e, is) = parse-query_string ps h fits in
    let (m', e', is') = parse-query_string qs (Reordered-IsWritable r h) fits' in
    (m, m', e, e', Quot.sound (λ name. is name ∙ latest-Reordered name [] r ∙ sym (is' name)))

-- Equal sets have the same parameters.
pub param_of-exact : (m m' : ParamMap) → param_set m ≡ param_set m' → SameParams m m'
unfolding param_of
param_of-exact m m' e name = ap (λ s. param_of s name) e
