-- ===== src/Cgi/Threads/Mutex.antt =====
-- `accept_mutex`: who holds it.
use worker_informer.Base.{
  updated, ℕ, ◌<◌, true, false, Option, none, some, List, ◌≡◌, inl, inr, refl, sym, ap, ◌∙◌, subst,
  Bytes,
}
use worker_informer.Core.State.{State}
use worker_informer.Core.Process.{Settings}
use worker_informer.Cgi.Request.{Request, Libraries}
use worker_informer.Cgi.Threads.{
  Place, locking, accepting, unlocking, Service, unlocked, start, Step, lock, accept, refuse,
  unlock, look_up, answer, Reach, here, next, changed, sending,
}
use worker_informer.Cgi.Threads.Shared.{inside, update_cases}

-- Exactly the thread that holds the mutex is between `pthread_mutex_lock` and `pthread_mutex_unlock`.
pub record IsLocked (n : ℕ) (mutex : Option ℕ) (place : ℕ → Place) : Type 0 where
  pub holder : (i : ℕ) → i < n → inside (place i) ≡ true → mutex ≡ some i
  pub held_by : (i : ℕ) → mutex ≡ some i → (i < n) × (inside (place i) ≡ true)

some_inj : {i j : ℕ} → ◌≡◌ {A = Option ℕ} (some i) (some j) → i ≡ j
some_inj e = cc

module _ {n : ℕ} {m : Option ℕ} {g : ℕ → Place} (h : IsLocked n m g) (i : ℕ) (b : Place) where
  inside_as_before : inside (g i) ≡ inside b → (j : ℕ) → inside (updated g i b j) ≡ inside (g j)
  inside_as_before e j = elim (update_cases g i b j) [
    | inl (at, same) ↦ ap inside same ∙ sym e ∙ ap (λ k. inside (g k)) (sym at)
    | inr (other, same) ↦ ap inside same
  ]

  kept : inside (g i) ≡ inside b → IsLocked n m (updated g i b)
  kept e = record {
    holder = λ j lt k. h.holder j lt (sym (inside_as_before e j) ∙ k);
    held_by = λ j k. let (lt, was) = h.held_by j k in (lt, inside_as_before e j ∙ was);
  }

  taken : m ≡ none → i < n → inside b ≡ true → IsLocked n (some i) (updated g i b)
  taken free lt e = record {
    holder = λ j less k. elim (update_cases g i b j) [
      | inl (at, same) ↦ ap some (sym at)
      | inr (other, same) ↦ let was : m ≡ some j = h.holder j less (sym (ap inside same) ∙ k) in cc
    ];
    held_by = λ j k.
        subst (λ x. (x < n) × (inside (updated g i b x) ≡ true)) (some_inj k)
          (
            lt,
            elim (update_cases g i b i) [
              | inl (at, same) ↦ ap inside same ∙ e
              | inr (other, same) ↦ absurd (other refl)
            ],
          );
  }

  freed : i < n → inside (g i) ≡ true → inside b ≡ false → IsLocked n none (updated g i b)
  freed lt was e = record {
    holder = λ j less k. elim (update_cases g i b j) [
      | inl (at, same) ↦ let out : inside b ≡ true = sym (ap inside same) ∙ k in cc
      | inr (other, same) ↦
          let mine : m ≡ some i = h.holder i lt was in
          let its : m ≡ some j = h.holder j less (sym (ap inside same) ∙ k) in
          absurd (other (some_inj (sym its ∙ mine)))
    ];
    held_by = λ j k. cc;
  }

unlocked_outside : (o : Option Request) → inside (unlocked o) ≡ false
unlocked_outside none = refl
unlocked_outside (some r) = refl

module _ {Real : Type 0} (lib : ℕ → Libraries Real) (cfg : Settings Real) (cookie_name : Bytes)
    (n : ℕ) where
  step-IsLocked :
      (s t : Service Real)
      → Step lib cfg cookie_name n s t
      → IsLocked n s.mutex s.place
      → IsLocked n t.mutex t.place
  step-IsLocked s t (lock {i} lt at free e) h =
      subst (λ u. IsLocked n u.mutex u.place) (sym e) (taken h i accepting free lt refl)
  step-IsLocked s t (accept {i} {r} lt at some_wait e) h =
      subst (λ u. IsLocked n u.mutex u.place) (sym e) (kept h i (unlocking (some r)) (ap inside at))
  step-IsLocked s t (refuse {i} lt at e) h =
      subst (λ u. IsLocked n u.mutex u.place) (sym e) (kept h i (unlocking none) (ap inside at))
  step-IsLocked s t (unlock {i} {o} lt at e) h =
      subst (λ u. IsLocked n u.mutex u.place) (sym e)
        (freed h i (unlocked o) lt (ap inside at) (unlocked_outside o))
  step-IsLocked s t (look_up {i} {r} lt at e) h =
      subst (λ u. IsLocked n u.mutex u.place) (sym e)
        (kept h i (sending r s.moment s.server_name) (ap inside at))
  step-IsLocked s t (answer {i} lt at run inc e) h =
      subst (λ u. IsLocked n u.mutex u.place) (sym e) (kept h i locking (ap inside at))

  pub start-IsLocked :
      (rs : List Request) (cores : ℕ → State Real) (name : Bytes)
      → IsLocked n (start rs cores name).mutex (start rs cores name).place
  start-IsLocked rs cores name = record { holder = λ i lt e. cc; held_by = λ i e. cc }

  pub reach-IsLocked :
      {s t : Service Real}
      → Reach lib cfg cookie_name n s t
      → IsLocked n s.mutex s.place
      → IsLocked n t.mutex t.place
  reach-IsLocked here h = h
  reach-IsLocked (next {t} {u} r step) h = step-IsLocked t u step (reach-IsLocked r h)
  reach-IsLocked (changed r e) h =
      subst (λ u. IsLocked n u.mutex u.place) (sym e) (reach-IsLocked r h)

  -- In every state that the threads come to, at most one of them is between the lock and the unlock of
  -- the mutex.
  pub threads-exclusive :
      (rs : List Request) (cores : ℕ → State Real) (name : Bytes) (s : Service Real) (i j : ℕ)
      → Reach lib cfg cookie_name n (start rs cores name) s
      → i < n
      → j < n
      → inside (s.place i) ≡ true
      → inside (s.place j) ≡ true
      → i ≡ j
  threads-exclusive rs cores name s i j r lt less at its =
      let h = reach-IsLocked r (start-IsLocked rs cores name) in
      some_inj (sym (h.holder i lt at) ∙ h.holder j less its)
