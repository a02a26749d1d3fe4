-- ===== src/Url/Query/Grammar.antt =====
-- The parameters that a query text spells, as a grammar, and that `parse` returns these.
use worker_informer.Base.{
  ℕ, suc, ◌+◌, ◌-◌, ◌≤◌, ◌<◌, ◌^◌, ◌||◌, some, true, false, [], ◌∷◌, ◌++◌, append_assoc, append-nil,
  ◌≡◌, refl, sym, ◌∙◌, ◌==◌, ltb, if◌then◌else◌, arith, Bytes, length, Lacks, length-append, insert,
}
use worker_informer.Url.Percent.{percent_decode}
use worker_informer.Url.Query.Strings.{
  npos, find_first_of, substr, find_first_of-Lacks, find_first_of-append, substr-append,
}
use worker_informer.Url.Query.{ParamMap, increment, parse_loop}

-- `Query s ps`: the text behind the question mark spells the raw parameters `ps`, in order.
pub data Query : Bytes → ParamMap → Type 0 where
  stop : {s : Bytes} → Lacks b'=' s → Query s []
  last :
      {s name value : Bytes}
      → s ≡ name ++ b'=' ∷ value
      → Lacks b'=' name
      → Lacks b'&' value
      → Query s ((name, value) ∷ [])
  more :
      {s name value rest : Bytes} {ps : ParamMap}
      → s ≡ name ++ b'=' ∷ (value ++ b'&' ∷ rest)
      → Lacks b'=' name
      → Lacks b'&' value
      → Query rest ps
      → Query s ((name, value) ∷ ps)

-- Assigning decoded values in order: a later value replaces an earlier one of the same name.
abbrev pub assign : ParamMap → ParamMap → ParamMap
assign [] m = m
assign ((name, value) ∷ ps) m = assign ps (insert name (percent_decode value) m)

pub running :
    (pos n k : ℕ) → increment pos ≡ n → n ≤ k → pos < 2 ^ 64 → (ltb pos k || pos == npos) ≡ true
running pos n k e h w = ground arith

-- One round, from what its searches find.
parse_loop_round :
    (fuel : ℕ) (url : Bytes) (pos : ℕ) (m : ParamMap) {start equals first ampersand end : ℕ}
    {name value : Bytes}
    → (ltb pos (length url) || pos == npos) ≡ true
    → increment pos ≡ start
    → find_first_of url b'=' start ≡ equals
    → (equals == npos) ≡ false
    → increment equals ≡ first
    → find_first_of url b'&' first ≡ ampersand
    → (if ampersand == npos then length url else ampersand) ≡ end
    → substr url start (equals - start) ≡ some name
    → substr url first (end - first) ≡ some value
    → parse_loop (suc fuel) url pos m
      ≡ parse_loop fuel url end (insert name (percent_decode value) m)
unfolding parse_loop
parse_loop_round fuel url pos m t p q n r u v x y = rw (t, p, q, n, r, u, v, x, y)

pub parse_loop_stop :
    (fuel : ℕ) (url : Bytes) (pos : ℕ) (m : ParamMap) {start : ℕ}
    → (ltb pos (length url) || pos == npos) ≡ true
    → increment pos ≡ start
    → find_first_of url b'=' start ≡ npos
    → parse_loop (suc fuel) url pos m ≡ some m
unfolding parse_loop
parse_loop_stop fuel url pos m t p q = rw (t, p, q)

pub parse_loop_end :
    (fuel : ℕ) (url : Bytes) (m : ParamMap)
    → length url < npos
    → parse_loop (suc fuel) url (length url) m ≡ some m
unfolding parse_loop
parse_loop_end fuel url m h =
    let t : (ltb (length url) (length url) || length url == npos) ≡ false = ground arith in rw t

abbrev front : Bytes → Bytes → Bytes
front pre name = pre ++ (name ++ b'=' ∷ [])

front-append : (pre name t : Bytes) → front pre name ++ t ≡ pre ++ (name ++ b'=' ∷ t)
front-append pre name t = simp append_assoc

length-front : (pre name : Bytes) → length (front pre name) ≡ length pre + length name + 1
length-front pre name =
    omega (arith, length-append {0} pre (name ++ b'=' ∷ []), length-append {0} name (b'=' ∷ []))

module _ (fuel : ℕ) (pre name value : Bytes) (pos : ℕ) (m : ParamMap)
    (e : increment pos ≡ length pre) (w : pos < 2 ^ 64) (hn : Lacks b'=' name)
    (hv : Lacks b'&' value) where
  last_value :
      (url : Bytes)
      → url ≡ front pre name ++ value
      → length url ≡ length pre + length name + 1 + length value
      → substr url (length pre + length name + 1) (length url - (length pre + length name + 1))
        ≡ some value
  last_value url s size = rw s (
      rw append-nil at (
        substr-append (front pre name) (sym (length-front pre name)) value []
          {n = length (front pre name ++ value) - (length pre + length name + 1)}
          (omega (arith, length-append {0} (front pre name) value, length-front pre name))))

  -- The round at a value that ends the text.
  pub parse_loop-last :
      (url : Bytes)
      → url ≡ pre ++ (name ++ b'=' ∷ value)
      → length url < npos
      → parse_loop (suc fuel) url pos m
        ≡ parse_loop fuel url (length url) (insert name (percent_decode value) m)
  parse_loop-last url s fits =
      let size : length url ≡ length pre + length name + 1 + length value = rw s (
        omega (
          arith,
          length-append {0} pre (name ++ b'=' ∷ value),
          length-append {0} name (b'=' ∷ value),
        )) in
      let at : length pre + length name + 1 ≡ length (front pre name) =
        sym (length-front pre name) in
      let s' : url ≡ front pre name ++ value = s ∙ sym (front-append pre name value) in
      parse_loop_round fuel url pos m {start = length pre} {equals = length pre + length name}
        {first = length pre + length name + 1} {ampersand = npos} {end = length url} {name = name}
        {value = value} (running pos (length pre) (length url) e (omega arith) w) e
        (rw s (find_first_of-append pre refl name value b'=' hn)) (ground arith) (ground arith)
        (rw s' (find_first_of-Lacks (front pre name) at value b'&' hv)) refl
        (rw s (substr-append pre refl name (b'=' ∷ value) (omega arith))) (last_value url s' size)

  -- The round at a value that an ampersand ends.
  pub parse_loop-more :
      (url rest : Bytes)
      → url ≡ pre ++ (name ++ b'=' ∷ (value ++ b'&' ∷ rest))
      → length url < npos
      → parse_loop (suc fuel) url pos m
        ≡ parse_loop fuel url
            (length pre + length name + 1 + length value)
            (insert name (percent_decode value) m)
  parse_loop-more url rest s fits =
      let size : length url ≡ length pre + length name + 1 + length value + 1 + length rest = rw s (
        omega (
          arith,
          length-append {0} pre (name ++ b'=' ∷ (value ++ b'&' ∷ rest)),
          length-append {0} name (b'=' ∷ (value ++ b'&' ∷ rest)),
          length-append {0} value (b'&' ∷ rest),
        )) in
      let at : length pre + length name + 1 ≡ length (front pre name) =
        sym (length-front pre name) in
      let s' : url ≡ front pre name ++ (value ++ b'&' ∷ rest) = s ∙ sym (front-append pre name _) in
      parse_loop_round fuel url pos m {start = length pre} {equals = length pre + length name}
        {first = length pre + length name + 1}
        {ampersand = length pre + length name + 1 + length value}
        {end = length pre + length name + 1 + length value} {name = name} {value = value}
        (running pos (length pre) (length url) e (omega arith) w) e
        (rw s (find_first_of-append pre refl name (value ++ b'&' ∷ rest) b'=' hn)) (ground arith)
        (ground arith) (rw s' (find_first_of-append (front pre name) at value rest b'&' hv))
        (ground arith)
        (rw s (substr-append pre refl name (b'=' ∷ (value ++ b'&' ∷ rest)) (omega arith)))
        (rw s' (substr-append (front pre name) at value (b'&' ∷ rest) (omega arith)))
