-- ===== src/Cgi/Threads/Shared.antt =====
-- Sums over the threads, and what one thread's step does to them.
use worker_informer.Base.{
  updated, ℕ, zero, suc, ◌+◌, ◌≤◌, ◌<◌, Bool, true, false, List, [], ◌∷◌, ◌++◌, ◌≡◌, ◌≢◌, ◌⊎◌, inl,
  inr, refl, sym, subst, ap, ◌∙◌, arith, ℕ_discrete, ◌==◌, if◌then◌else◌,
}
use worker_informer.Cgi.Threads.{Place, accepting, unlocking}

-- The sum of `f` over the threads below `n`.
abbrev pub total : ℕ → (ℕ → ℕ) → ℕ
total zero f = 0
total (suc n) f = total n f + f n

module _ {A : Type 0} (g : ℕ → A) (i : ℕ) (a : A) where
  pub update_same : updated g i a i ≡ a
  update_same = let e : (i == i) ≡ true = ground arith in rw e refl

  pub update_other : (j : ℕ) → j ≢ i → updated g i a j ≡ g j
  update_other j h = let e : (j == i) ≡ false = ground arith in rw e refl

  total_above :
      (f : A → ℕ) (n : ℕ) → n ≤ i → total n (λ j. f (updated g i a j)) ≡ total n (λ j. f (g j))
  total_above f zero h = refl
  total_above f (suc n) h =
      omega (arith, total_above f n (omega arith), ap f (update_other n (omega arith)))

  -- A thread's step changes its own summand.
  pub total-updated :
      (f : A → ℕ) (n : ℕ)
      → i < n
      → total n (λ j. f (updated g i a j)) + f (g i) ≡ total n (λ j. f (g j)) + f a
  total-updated f zero h = absurd (omega arith)
  total-updated f (suc n) h = elim (ℕ_discrete n i) [
    | yes e ↦ omega (
      arith,
      total_above f n (omega arith),
      ap f (ap (updated g i a) e ∙ update_same),
      ap (λ j. f (g j)) e,
    )
    | no other ↦ omega (arith, total-updated f n (omega arith), ap f (update_other n other))
  ]

-- How many elements pass a test.
abbrev pub count {ℓ} : {A : Type ℓ} → (A → Bool) → List A → ℕ
count p [] = 0
count p (x ∷ xs) = (if p x then 1 else 0) + count p xs

pub count-append {ℓ} :
    {A : Type ℓ} (p : A → Bool) (xs ys : List A) → count p (xs ++ ys) ≡ count p xs + count p ys
count-append p [] ys = omega arith
count-append p (x ∷ xs) ys = omega (arith, count-append p xs ys)

-- Between the calls of `pthread_mutex_lock` and `pthread_mutex_unlock`.
abbrev pub inside : Place → Bool
inside accepting = true
inside (unlocking o) = true
inside _ = false

pub update_cases :
    {A : Type 0} (g : ℕ → A) (i : ℕ) (a : A) (j : ℕ)
    → ((j ≡ i) × (updated g i a j ≡ a)) ⊎ ((j ≢ i) × (updated g i a j ≡ g j))
update_cases g i a j = elim (ℕ_discrete j i) [
  | yes e ↦ inl (e, ap (updated g i a) e ∙ update_same g i a)
  | no h ↦ inr (h, update_other g i a j h)
]

-- A thread's new value in place of its old one keeps what holds of all.
pub updated-keeps :
    {A : Type 0} (P : A → Type 0) (g : ℕ → A) (i : ℕ) (a : A)
    → ((j : ℕ) → P (g j))
    → P a
    → (j : ℕ) → P (updated g i a j)
updated-keeps P g i a all new j = elim (update_cases g i a j) [
  | inl (e, same) ↦ subst P (sym same) new
  | inr (e, same) ↦ subst P (sym same) (all j)
]
