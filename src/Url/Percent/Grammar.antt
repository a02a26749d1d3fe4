-- ===== src/Url/Percent/Grammar.antt =====
-- What `percent_decode` returns, as a grammar: each way to read the front of a text, broken and
-- unfinished escapes included.
use worker_informer.Base.{
  ℕ, subst, true, false, [], ◌∷◌, ◌++◌, append-nil, append_assoc, ◌≡◌, ◌≢◌, refl, sym, inl, inr,
  ◌==◌, ==_iff, arith, Bytes, Bool-cases,
}
use worker_informer.Url.Hex.{is_hex_digit}
use worker_informer.Url.Percent.{general, Decoder, hex_byte, step_in, start, run, percent_decode}

-- `Decodes s t`: the text `s` stands for the bytes `t`.
pub data Decodes : Bytes → Bytes → Type 0 where
  done : Decodes [] []
  plain : {c : ℕ} {s t : Bytes} → c ≢ b'%' → Decodes s t → Decodes (c ∷ s) (c ∷ t)
  escaped :
      {p c d b : ℕ} {s t : Bytes}
      → p ≡ b'%'
      → is_hex_digit c ≡ true
      → is_hex_digit d ≡ true
      → b ≡ hex_byte c d
      → Decodes s t
      → Decodes (p ∷ c ∷ d ∷ s) (b ∷ t)
  bad_first :
      {p c : ℕ} {s t : Bytes}
      → p ≡ b'%'
      → is_hex_digit c ≡ false
      → Decodes s t
      → Decodes (p ∷ c ∷ s) (p ∷ c ∷ t)
  bad_second :
      {p c d : ℕ} {s t : Bytes}
      → p ≡ b'%'
      → is_hex_digit c ≡ true
      → is_hex_digit d ≡ false
      → Decodes s t
      → Decodes (p ∷ c ∷ d ∷ s) (p ∷ c ∷ d ∷ t)
  cut_first : {p : ℕ} → p ≡ b'%' → Decodes (p ∷ []) []
  cut_second : {p c : ℕ} → p ≡ b'%' → is_hex_digit c ≡ true → Decodes (p ∷ c ∷ []) []

run-Decodes :
    {s t : Bytes} (d : Decoder) → d.state ≡ general → Decodes s t → (run d s).result ≡ d.result ++ t
unfolding run step_in
run-Decodes d m done = sym (append-nil d.result)
run-Decodes d m (plain {c} {t} h r) = ground (
  arith,
  run-Decodes (record d { result = d.result ++ c ∷ [] }) m r,
  append_assoc d.result (c ∷ []) t,
)
run-Decodes d m (escaped {c} {d = e} {b} {t} h hc he hb r) =
    let d' = record d {
      state = general;
      first_char = c;
      second_char = e;
      result = d.result ++ hex_byte c e ∷ [];
    } in
    ground (arith, run-Decodes d' refl r, append_assoc d.result (b ∷ []) t)
run-Decodes d m (bad_first {c} {t} h hc r) =
    let d' = record d {
      state = general;
      first_char = c;
      second_char = 0;
      result = d.result ++ b'%' ∷ c ∷ [];
    } in
    ground (arith, run-Decodes d' refl r, append_assoc d.result (b'%' ∷ c ∷ []) t)
run-Decodes d m (bad_second {c} {d = e} {t} h hc he r) =
    let d' = record d {
      state = general;
      first_char = c;
      second_char = e;
      result = d.result ++ b'%' ∷ c ∷ e ∷ [];
    } in
    ground (arith, run-Decodes d' refl r, append_assoc d.result (b'%' ∷ c ∷ e ∷ []) t)
run-Decodes d m (cut_first h) = ground (arith, append-nil d.result)
run-Decodes d m (cut_second h hc) = ground (arith, append-nil d.result)

Decodes-total : (s : Bytes) → (t : Bytes) × Decodes s t
Decodes-total [] = ([], done)
Decodes-total (c ∷ []) = elim (Bool-cases (c == b'%')) [
  | inl e ↦ ([], cut_first ((==_iff c b'%').0 e))
  | inr e ↦ (c ∷ [], plain (ground arith) done)
]
Decodes-total (p ∷ c ∷ []) =
    let (t, rest) = Decodes-total (c ∷ []) in
    elim (Bool-cases (p == b'%')) [
      | inl e ↦ elim (Bool-cases (is_hex_digit c)) [
        | inl h ↦ ([], cut_second ((==_iff p b'%').0 e) h)
        | inr h ↦ (p ∷ c ∷ [], bad_first ((==_iff p b'%').0 e) h done)
      ]
      | inr e ↦ (p ∷ t, plain (ground arith) rest)
    ]
Decodes-total (p ∷ c ∷ d ∷ s) =
    let (t₁, r₁) = Decodes-total (c ∷ d ∷ s) in
    let (t₂, r₂) = Decodes-total (d ∷ s) in
    let (t₃, r₃) = Decodes-total s in
    elim (Bool-cases (p == b'%')) [
      | inl e ↦
          let percent : p ≡ b'%' = (==_iff p b'%').0 e in
          elim (Bool-cases (is_hex_digit c)) [
            | inl h ↦ elim (Bool-cases (is_hex_digit d)) [
              | inl k ↦ (hex_byte c d ∷ t₃, escaped percent h k refl r₃)
              | inr k ↦ (p ∷ c ∷ d ∷ t₃, bad_second percent h k r₃)
            ]
            | inr h ↦ (p ∷ c ∷ t₂, bad_first percent h r₂)
          ]
      | inr e ↦ (p ∷ t₁, plain (ground arith) r₁)
    ]

-- A text has exactly one reading by the grammar, and `percent_decode` returns it: malformed and
-- unfinished escapes included, for every text.
pub percent_decode-Decodes :
    (s : Bytes) → Decodes s (percent_decode s) × ((t : Bytes) → Decodes s t → t ≡ percent_decode s)
unfolding percent_decode
percent_decode-Decodes s =
    let (t, r) = Decodes-total s in
    (subst (Decodes s) (sym (run-Decodes start refl r)) r, λ u k. sym (run-Decodes start refl k))
