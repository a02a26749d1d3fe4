-- ===== src/Url/Query/Parse.antt =====
-- `parse` on every text: it ends, and returns what the grammar reads.
use worker_informer.Base.{
  ℕ, suc, zero, ◌+◌, ◌<◌, ◌^◌, ◌⊎◌, inl, inr, some, [], ◌∷◌, ◌++◌, append_assoc, ◌≡◌, refl, sym, ap,
  ◌∙◌, ◌==◌, ==_iff, arith, Bytes, length, Lacks, length-append, insert, Bool-cases,
}
use worker_informer.Url.Percent.{percent_decode}
use worker_informer.Url.Query.Strings.{
  npos, find_first_of, find_first_of-Lacks, find_first_of-append,
}
use worker_informer.Url.Query.{ParamMap, increment, parse_loop, parse}
use worker_informer.Url.Query.Grammar.{
  Query, stop, last, more, assign, running, parse_loop_stop, parse_loop_end, parse_loop-last,
  parse_loop-more,
}

parse_loop-Query :
    (fuel : ℕ) (url pre : Bytes) (pos : ℕ) (m : ParamMap) {s : Bytes} {ps : ParamMap}
    → Query s ps
    → url ≡ pre ++ s
    → increment pos ≡ length pre
    → pos < 2 ^ 64
    → length url < npos
    → length s < fuel
    → parse_loop fuel url pos m ≡ some (assign ps m)
parse_loop-Query zero url pre pos m q s e w fits enough = absurd (omega arith)
parse_loop-Query (suc fuel) url pre pos m (stop {s = t} h) s e w fits enough =
    parse_loop_stop fuel url pos m
      (running pos (length pre) (length url) e (rw s (omega (arith, length-append {0} pre t))) w) e
      (rw s (find_first_of-Lacks pre refl t b'=' h))
parse_loop-Query (suc zero) url pre pos m (last {name} {value} t hn hv) s e w fits enough =
    absurd (omega (arith, ap length t, length-append {0} name (b'=' ∷ value)))
parse_loop-Query (suc (suc fuel)) url pre pos m (last {name} {value} t hn hv) s e w fits enough =
    parse_loop-last (suc fuel) pre name value pos m e w hn hv url (rw (← t) s) fits
    ∙ parse_loop_end fuel url (insert name (percent_decode value) m) fits
parse_loop-Query (suc fuel) url pre pos m (more {name} {value} {rest} t hn hv q) s e w fits enough =
    let s' : url ≡ pre ++ (name ++ b'=' ∷ (value ++ b'&' ∷ rest)) = rw (← t) s in
    let pre' : Bytes = pre ++ (name ++ b'=' ∷ (value ++ b'&' ∷ [])) in
    let size : length pre' ≡ length pre + length name + 1 + length value + 1 = omega (
      arith,
      length-append {0} pre (name ++ b'=' ∷ (value ++ b'&' ∷ [])),
      length-append {0} name (b'=' ∷ (value ++ b'&' ∷ [])),
      length-append {0} value (b'&' ∷ []),
    ) in
    let whole : url ≡ pre' ++ rest = s' ∙ simp append_assoc in
    let sizes : length url ≡ length pre' + length rest = rw whole (length-append pre' rest) in
    let text : length rest < fuel = omega (
      arith,
      ap length t,
      length-append {0} name (b'=' ∷ (value ++ b'&' ∷ rest)),
      length-append {0} value (b'&' ∷ rest),
    ) in
    parse_loop-more fuel pre name value pos m e w hn hv url rest s' fits
    ∙ parse_loop-Query fuel url pre' _ _ q whole (omega arith) (omega arith) fits text

-- The text behind the first question mark, or the whole text if there is none.
abbrev pub IsQueryText : Bytes → Bytes → Type 0
IsQueryText url s =
    (Lacks b'?' url × (s ≡ url)) ⊎ ((pre : Bytes) × (url ≡ pre ++ b'?' ∷ s) × Lacks b'?' pre)

pub parse-Query :
    (url s : Bytes) {ps : ParamMap}
    → length url < npos
    → IsQueryText url s
    → Query s ps
    → parse url ≡ some (assign ps [])
unfolding parse
parse-Query url s fits (inl (h, e)) q = rw (find_first_of-Lacks [] refl url b'?' h) (
    parse_loop-Query (length url + 2) url [] npos [] q (sym e) refl (omega arith) fits
      (omega (arith, ap length e)))
parse-Query url s fits (inr (pre, e, h)) q =
    let size : length url ≡ length pre + 1 + length s =
      rw e (length-append pre (b'?' ∷ s) ∙ omega arith) in
    let found : find_first_of url b'?' 0 ≡ length pre =
      rw e (find_first_of-append [] refl pre s b'?' h ∙ omega arith) in
    let at : length (pre ++ b'?' ∷ []) ≡ length pre + 1 = length-append pre (b'?' ∷ []) in
    rw found (
      parse_loop-Query (length url + 2) url (pre ++ b'?' ∷ []) (length pre) [] q
        (e ∙ simp append_assoc) (omega arith) (omega arith) fits (omega arith))

-- A text with no `c`, or cut at the first one.
abbrev Cut : ℕ → Bytes → Type 0
Cut c s = Lacks c s ⊎ ((a : Bytes) × (t : Bytes) × (s ≡ a ++ c ∷ t) × Lacks c a)

cut : (c : ℕ) (s : Bytes) → Cut c s
cut c [] = inl tt
cut c (x ∷ s) = elim (Bool-cases (x == c)) [
  | inl e ↦ inr ([], s, ap (λ y. y ∷ s) ((==_iff x c).0 e), tt)
  | inr e ↦ elim (cut c s) [
    | inl h ↦ inl ((λ k. absurd (ground arith)), h)
    | inr (a, t, h, l) ↦ inr (x ∷ a, t, ap (◌∷◌ x) h, ((λ k. absurd (ground arith)), l))
  ]
]

Query-total : (n : ℕ) (s : Bytes) → length s < n → (ps : ParamMap) × Query s ps
Query-total zero s h = absurd (omega arith)
Query-total (suc n) s h = elim (cut b'=' s) [
  | inl l ↦ ([], stop l)
  | inr (name, t, e, hn) ↦ elim (cut b'&' t) [
    | inl l ↦ ((name, t) ∷ [], last e hn l)
    | inr (value, rest, k, hv) ↦
        let (ps, q) = Query-total n rest (
          omega (
            arith,
            ap length e,
            ap length k,
            length-append {0} name (b'=' ∷ t),
            length-append {0} value (b'&' ∷ rest),
          )) in
        ((name, value) ∷ ps, more (e ∙ ap (λ x. name ++ b'=' ∷ x) k) hn hv q)
  ]
]

IsQueryText-total : (url : Bytes) → (s : Bytes) × IsQueryText url s
IsQueryText-total url = elim (cut b'?' url) [
  | inl h ↦ (url, inl (h, refl))
  | inr (pre, t, e, h) ↦ (t, inr (pre, e, h))
]

-- Every text of fewer than 2^64 - 1 bytes is parsed: the loop ends and `substr` throws nowhere.
-- The result assigns, in order, the parameters that the grammar reads behind the first question
-- mark, or in the whole text if it has none.
pub parse_total :
    (url : Bytes)
    → length url < npos
    → (s : Bytes) × (ps : ParamMap) × IsQueryText url s
      × Query s ps
      × (parse url ≡ some (assign ps []))
parse_total url fits =
    let (s, t) = IsQueryText-total url in
    let (ps, q) = Query-total (suc (length s)) s (omega arith) in
    (s, ps, t, q, parse-Query url s fits t q)

-- Of a text with exactly one question mark, only what follows it is parsed: the parameters in
-- front of the mark are lost.
pub parse_after_question :
    (pre s : Bytes)
    → Lacks b'?' pre
    → Lacks b'?' s
    → length (pre ++ b'?' ∷ s) < npos
    → parse (pre ++ b'?' ∷ s) ≡ parse s
parse_after_question pre s hp hs fits =
    let (ps, q) = Query-total (suc (length s)) s (omega arith) in
    parse-Query (pre ++ b'?' ∷ s) s fits (inr (pre, refl, hp)) q
    ∙ sym (parse-Query s s (omega (arith, length-append {0} pre (b'?' ∷ s))) (inl (hs, refl)) q)
