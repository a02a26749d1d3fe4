-- ===== src/Log/Race.antt =====
-- The buffer of src/Log.cpp, which all threads print into.
use worker_informer.Base.{
  updated, true, false, ℕ, ◌<◌, Option, none, some, List, [], ◌∷◌, ◌++◌, append_assoc, ◌≡◌, ◌≢◌,
  refl, arith, ◌==◌, Bytes, length, c_string,
}
use worker_informer.Log.Stream.{Entry}
use worker_informer.Log.Messages.{buffer_size}

-- The text in the buffer, the calls of `syslog` so far, and for each thread between its `vsprintf` and its
-- `syslog` the priority of its message.
pub record Shared : Type 0 where
  pub buffer : Bytes
  pub sent : List Entry
  pub printed : ℕ → Option ℕ

-- A step of thread `i`; `vsprintf` is taken to be one step.
pub data Step (s t : Shared) : Type 0 where
  print_text :
      {i : ℕ} (p : ℕ) (text : Bytes)
      → s.printed i ≡ none
      → length text < buffer_size
      → t ≡ record s { buffer = text; printed = updated s.printed i (some p) }
      → Step s t
  send :
      {i p : ℕ}
      → s.printed i ≡ some p
      → t ≡ record s {
        sent = s.sent ++ record { priority = p; text = c_string s.buffer } ∷ [];
        printed = updated s.printed i none;
      }
      → Step s t

pub data Reach (s : Shared) : Shared → Type 0 where
  here : Reach s s
  next : {t u : Shared} → Reach s t → Step t u → Reach s u

abbrev entry : ℕ → Bytes → Entry
entry p t = record { priority = p; text = c_string t }

-- Messages are mixed up: two threads that log `t` and `u` can come to a state in which each has made its
-- call of `syslog`, and `u` was sent both times, under both priorities. Both texts fit into the buffer.
pub messages_mixed :
    (s : Shared) (i j p q : ℕ) (t u : Bytes)
    → i ≢ j
    → s.printed i ≡ none
    → s.printed j ≡ none
    → length t < buffer_size
    → length u < buffer_size
    → (s' : Shared) × Reach s s'
      × (s'.sent ≡ s.sent ++ entry p u ∷ entry q u ∷ [])
      × (s'.printed i ≡ none)
      × (s'.printed j ≡ none)
messages_mixed s i j p q t u other fi fj ht hu =
    let self : (i == i) ≡ true = ground arith in
    let self' : (j == j) ≡ true = ground arith in
    let ij : (i == j) ≡ false = ground arith in
    let ji : (j == i) ≡ false = ground arith in
    (
      _,
      next
          (next
            (next (next here (print_text {i = i} p t fi ht refl))
              (print_text {i = j} q u (rw ji fj) hu refl))
            (send {i = i} {p = p} (rw (ij, self) refl) refl))
          (send {i = j} {p = q} (rw (ji, self') refl) refl),
      append_assoc s.sent (entry p u ∷ []) (entry q u ∷ []),
      rw (ij, self) refl,
      rw self' refl,
    )
