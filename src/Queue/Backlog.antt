-- ===== src/Queue/Backlog.antt =====
-- `CgiService::run`: one check after the other, and what becomes of a long queue.
use worker_informer.Base.{
  ℕ, zero, suc, ◌+◌, ◌*◌, ◌/◌, ◌≤◌, ◌<◌, List, [], ◌∷◌, ◌++◌, ◌≡◌, ◌⊎◌, inl, inr, refl, sym, ap,
  ◌∙◌, subst, arith, dec_lt, Bytes, length, length-append, length-take, length-drop, take, drop,
  take_all, drop_all,
}
use worker_informer.Queue.Broker.{Message, Reply, message, empty, Replies, here, next}
use worker_informer.Queue.Drain.{handle_all, handle_all-append}
use worker_informer.Queue.Process.{Parent, BaseCore, max_count, handle_informer, process_mq}
use worker_informer.Queue.Delivery.{process_mq_all, process_mq_lost}

-- The first `k` rounds of the loop, at these times.
unfoldable pub run_checks :
    {Db Q Time : Type 0}
    → (List Bytes → Bytes → List Bytes)
    → Parent Db
    → (Q → Reply Q)
    → (ℕ → Time)
    → ℕ
    → BaseCore Db Q Time
    → BaseCore Db Q Time
unfolding process_mq
run_checks push_back pdb get now zero c = c
run_checks push_back pdb get now (suc k) c =
    run_checks push_back pdb get now k (process_mq push_back pdb get (now k) c).0

-- What is left of a queue's messages after `k` rounds of `n` messages, where each round drops one more.
abbrev pub kept : {A : Type 0} → ℕ → ℕ → List A → List A
kept zero n ms = []
kept (suc k) n ms = take n ms ++ kept k n (drop (suc n) ms)

le_or_lt : (a b : ℕ) → (a ≤ b) ⊎ (b < a)
le_or_lt a b = elim (dec_lt b a) [ yes h ↦ inr h | no h ↦ inl (omega arith) ]

Replies-split :
    {Q : Type 0} (get : Q → Reply Q) {last r : Reply Q} (n : ℕ) {ms : List Message}
    → Replies get last r ms
    → n < length ms
    → (m : Message) × (q : Q) × Replies get (message m q) r (take n ms)
      × Replies get last (get q) (drop (suc n) ms)
Replies-split get n here h = absurd (omega arith)
Replies-split get zero (next {m} {q} rest) h = (m, q, here, rest)
Replies-split get (suc n) (next {m} {q} rest) h =
    let (m', q', front, back) = Replies-split get n rest (omega arith) in (m', q', next front, back)

module _ (push_back : List Bytes → Bytes → List Bytes) {Db Q Time : Type 0} (pdb : Parent Db)
    (get : Q → Reply Q) where
  -- A queue `q` that has no messages any more, behind the messages `ms`; and no message of an account.
  pub record IsBacklog (q : Q) (ms : List Message) (c : BaseCore Db Q Time) : Type 0 where
    pub informers : Replies get (empty q) (get c.mq_informer) ms
    pub stays : get q ≡ empty q
    pub accounts : get c.mq_account ≡ empty c.mq_account

  no_accounts :
      (c : BaseCore Db Q Time)
      → get c.mq_account ≡ empty c.mq_account
      → Replies get (empty c.mq_account) (get c.mq_account) []
  no_accounts c e = subst (λ r. Replies get r (get c.mq_account) []) e here

  -- One check handles up to 1000 messages, and takes one more away.
  one_check :
      (now : Time) (q : Q) (ms : List Message) (c : BaseCore Db Q Time)
      → IsBacklog q ms c
      → ((process_mq push_back pdb get now c).0.store
          ≡ handle_all (handle_informer push_back pdb) (take max_count ms) c.store)
        × IsBacklog q (drop (suc max_count) ms) ((process_mq push_back pdb get now c).0)
  one_check now q ms c h = elim (le_or_lt (length ms) max_count) [
    | inl few ↦
        let e =
          process_mq_all push_back pdb get now c h.informers (no_accounts c h.accounts) few
            (omega arith) in
        rw (e, take_all max_count ms few, drop_all (suc max_count) ms (omega arith))
          (
            refl,
            record {
              informers = subst (λ r. Replies get r (get q) []) h.stays here;
              stays = h.stays;
              accounts = h.accounts;
            },
          )
    | inr many ↦
        let (m, q', front, back) = Replies-split get max_count h.informers many in
        let e =
          process_mq_lost push_back pdb get now c front (no_accounts c h.accounts)
            (length-take max_count ms (omega arith)) (omega arith) in
        rw e (refl, record { informers = back; stays = h.stays; accounts = h.accounts })
  ]

kept-nil : {A : Type 0} (k n : ℕ) → kept {A = A} k n [] ≡ []
kept-nil zero n = refl
kept-nil (suc k) zero = kept-nil k zero
kept-nil (suc k) (suc n) = kept-nil k (suc n)

-- Of each 1001 messages one is not kept.
length-kept :
    {A : Type 0} (k : ℕ) (ms : List A)
    → length ms ≤ k * 1001
    → length (kept k max_count ms) + length ms / 1001 ≡ length ms
length-kept zero ms h = omega arith
length-kept (suc k) ms h = elim (le_or_lt (length ms) max_count) [
  | inl few ↦
      rw
        (take_all max_count ms few, drop_all (suc max_count) ms (omega arith), kept-nil k max_count)
        (omega (arith, length-append ms []))
  | inr many ↦ omega (
    arith,
    length-append (take max_count ms) (kept k max_count (drop (suc max_count) ms)),
    length-take max_count ms (omega arith),
    length-drop (suc max_count) ms,
    length-kept k (drop (suc max_count) ms) (omega (arith, length-drop (suc max_count) ms)),
  )
]

module _ (push_back : List Bytes → Bytes → List Bytes) {Db Q Time : Type 0} (pdb : Parent Db)
    (get : Q → Reply Q) where
  runs :
      (now : ℕ → Time) (k : ℕ) (q : Q) (ms : List Message) (c : BaseCore Db Q Time)
      → IsBacklog push_back pdb get q ms c
      → length ms ≤ k * 1001
      → ((run_checks push_back pdb get now k c).store
          ≡ handle_all (handle_informer push_back pdb) (kept k max_count ms) c.store)
        × IsBacklog push_back pdb get q [] (run_checks push_back pdb get now k c)
  unfolding run_checks
  runs now zero q [] c h few = (refl, h)
  runs now zero q (m ∷ ms) c h few = absurd (omega arith)
  runs now (suc k) q ms c h few =
      let (store, left) = one_check push_back pdb get (now k) q ms c h in
      let (rest, empty_now) =
        runs now k q (drop (suc max_count) ms) (process_mq push_back pdb get (now k) c).0 left
          (omega (arith, length-drop (suc max_count) ms)) in
      (
        rest
            ∙ ap
                (handle_all (handle_informer push_back pdb)
                  (kept k max_count (drop (suc max_count) ms)))
                store
            ∙ sym (
                handle_all-append (handle_informer push_back pdb) (take max_count ms)
                  (kept k max_count (drop (suc max_count) ms)) c.store),
        empty_now,
      )

  -- However many messages wait in the informer queue, the loop of checks empties it, in as many rounds as
  -- there are 1001 messages or a part of them; it handles the messages in their order, but one in 1001 is
  -- lost. No message comes meanwhile, none is in the account queue, and the broker does not fail.
  pub run_checks-kept :
      (now : ℕ → Time) (k : ℕ) (q : Q) (ms : List Message) (c : BaseCore Db Q Time)
      → IsBacklog push_back pdb get q ms c
      → length ms ≤ k * 1001
      → ((run_checks push_back pdb get now k c).store
          ≡ handle_all (handle_informer push_back pdb) (kept k max_count ms) c.store)
        × IsBacklog push_back pdb get q [] (run_checks push_back pdb get now k c)
        × (length (kept k max_count ms) + length ms / 1001 ≡ length ms)
  run_checks-kept now k q ms c h few =
      let (store, left) = runs now k q ms c h few in (store, left, length-kept k ms few)
