-- ===== src/Core/Counter.antt =====
-- `request_processed_++` in `Core::ProcessClean`: the variable is one for all threads, and the increment is
-- a read and a write that other threads may come between.
use worker_informer.Base.{
  updated, ℕ, zero, suc, ◌+◌, ◌≤◌, ◌%◌, ◌^◌, Option, none, some, ◌≡◌, refl, sym, subst, arith, ◌==◌,
  Bool-cases, inl, inr,
}

-- The variable, what each thread has read and not written back yet, and the number of increments that
-- were made.
pub record Counter : Type 0 where
  pub request_processed : ℕ
  pub read : ℕ → Option ℕ
  pub made : ℕ

abbrev pub fresh : Counter
fresh = record { request_processed = 0; read = λ i. none; made = 0 }

pub data Step (s t : Counter) : Type 0 where
  fetch :
      {i : ℕ}
      → s.read i ≡ none
      → t ≡ record s { read = updated s.read i (some s.request_processed) }
      → Step s t
  store :
      {i v : ℕ}
      → s.read i ≡ some v
      → t ≡ record s {
        request_processed = (v + 1) % 2 ^ 64;
        read = updated s.read i none;
        made = s.made + 1;
      }
      → Step s t

pub data Reach : Counter → Type 0 where
  here : Reach fresh
  next : {s t : Counter} → Reach s → Step s t → Reach t

-- Neither the variable nor a value that was read is more than the number of increments.
record IsBelow (s : Counter) : Type 0 where
  variable : s.request_processed ≤ s.made
  values : (i v : ℕ) → s.read i ≡ some v → v ≤ s.made

some_inj : {v w : ℕ} → ◌≡◌ {A = Option ℕ} (some v) (some w) → v ≡ w
some_inj e = cc

updated-values :
    (f : ℕ → Option ℕ) (i : ℕ) (o : Option ℕ) (n : ℕ)
    → ((j v : ℕ) → f j ≡ some v → v ≤ n)
    → ((v : ℕ) → o ≡ some v → v ≤ n)
    → (j v : ℕ) → updated f i o j ≡ some v
    → v ≤ n
updated-values f i o n all new j v e = elim (Bool-cases (j == i)) [
  | inl h ↦ new v (rw h at e)
  | inr h ↦ all j v (rw h at e)
]

Step-IsBelow : (s t : Counter) → Step s t → IsBelow s → IsBelow t
Step-IsBelow s t (fetch {i} e k) h = subst IsBelow (sym k) (record {
  variable = h.variable;
  values =
      updated-values s.read i (some s.request_processed) s.made h.values
        (λ v p. omega (arith, h.variable, some_inj p));
})
Step-IsBelow s t (store {i} {v} e k) h = subst IsBelow (sym k) (record {
  variable = omega (arith, h.values i v e);
  values =
      updated-values s.read i none (s.made + 1) (λ j w p. omega (arith, h.values j w p))
        (λ w p. cc);
})

Reach-IsBelow : {s : Counter} → Reach s → IsBelow s
Reach-IsBelow here = record { variable = omega arith; values = λ i v e. cc }
Reach-IsBelow (next {s} {t} r step) = Step-IsBelow s t step (Reach-IsBelow r)

-- In every order of the threads' steps, the number of requests that the status page shows is at most the
-- number of requests that were processed.
pub counter-le-made : (s : Counter) → Reach s → s.request_processed ≤ s.made
counter-le-made s r = (Reach-IsBelow r).variable

-- Thread 0 has read the variable when the service had begun; thread 1 has made `k` increments since.
record IsBehind (k : ℕ) (s : Counter) : Type 0 where
  reached : Reach s
  stale : s.read 0 ≡ some 0
  unread : s.read 1 ≡ none
  others : s.made ≡ k

one_more : (k : ℕ) (s : Counter) → IsBehind k s → (t : Counter) × IsBehind (k + 1) t
one_more k s h = (
  _,
  record {
    reached = next (next h.reached (fetch {i = 1} h.unread refl)) (store {i = 1} refl refl);
    stale = h.stale;
    unread = refl;
    others = omega (arith, h.others);
  },
)

many-IsBehind : (k : ℕ) → (s : Counter) × IsBehind k s
many-IsBehind zero = (
  _,
  record {
    reached = next here (fetch {i = 0} refl refl);
    stale = refl;
    unread = refl;
    others = refl;
  },
)
many-IsBehind (suc k) =
    let (s, h) = many-IsBehind k in
    let (t, more) = one_more k s h in (t, subst (λ m. IsBehind m t) (omega arith) more)

-- Increments are lost: for every `k` there is an order of the threads' steps in which `k + 1` requests are
-- processed and the variable is 1.
pub counter_lost : (k : ℕ) → (s : Counter) × Reach s × (s.request_processed ≡ 1) × (s.made ≡ k + 1)
counter_lost k =
    let (s, h) = many-IsBehind k in
    (_, next h.reached (store {i = 0} h.stale refl), refl, omega (arith, h.others))
