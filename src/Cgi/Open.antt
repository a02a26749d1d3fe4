-- ===== src/Cgi/Open.antt =====
-- The constructor of `CgiService`, and its handler of signals.
use worker_informer.Base.{
  ℕ, zero, suc, ◌+◌, ◌*◌, ◌^◌, ◌<◌, ◌≤◌, ℤ, pos, negsuc, Bool, true, false, List, [], ◌∷◌, ◌++◌,
  ◌≡◌, ◌↔◌, refl, subst, sym, ap, ◌∙◌, arith, ltb, ◌==◌, if◌then◌else◌, Bool-cases, inl, inr, Bytes,
  codes, print,
}

-- How the constructor ends: the process exits with a message, `new` throws `std::bad_array_new_length`, the
-- arithmetic overflows, or requests are served on a socket by so many threads.
pub data Opened : Type 0 where
  exited : Bytes → Opened
  thrown overflows : Opened
  serving : ℤ → ℕ → Opened

-- `server_children_ * 4`, and whether it is an `int`.
abbrev pub fourfold : ℤ → ℤ
fourfold (pos n) = pos (n * 4)
fourfold (negsuc n) = negsuc (n * 4 + 3)

abbrev pub fourfold_fits : ℤ → Bool
fourfold_fits (pos n) = ltb (n * 4) (2 ^ 31)
fourfold_fits (negsuc n) = ltb (n * 4 + 3) (2 ^ 31)

abbrev pub is_negative : ℤ → Bool
is_negative (pos n) = false
is_negative (negsuc n) = true

-- `FCGX_OpenSocket`, and whether `pthread_create` makes the thread of a number.
module _ (open_socket : Bytes → ℤ → ℤ) (creates : ℕ → Bool) where
  -- The threads from a number on, as many as are left.
  unfoldable pub create_threads : ℤ → ℕ → ℕ → Opened
  create_threads socket i zero = serving socket i
  create_threads socket i (suc left) =
      let rest = create_threads socket (suc i) left in
      if creates i then rest else exited (codes "creating thread failed")

  -- `new pthread_t[server_children_ + 1]`, and the loop.
  abbrev pub with_threads : ℤ → ℤ → Opened
  with_threads socket (pos n) = create_threads socket 0 n
  with_threads socket (negsuc zero) = serving socket 0
  with_threads socket (negsuc (suc n)) = thrown

  abbrev pub with_socket : ℤ → ℤ → Opened
  with_socket children socket =
      if is_negative socket
      then exited (codes "Error open socket. exit")
      else with_threads socket children

  unfoldable pub open_service : ℤ → Bytes → Opened
  unfolding create_threads
  open_service children socket_path =
      if fourfold_fits children
      then with_socket children (open_socket socket_path (fourfold children))
      else overflows

  create_threads_all :
      (socket : ℤ) (i n : ℕ)
      → ((j : ℕ) → i ≤ j → j < i + n → creates j ≡ true)
      → create_threads socket i n ≡ serving socket (i + n)
  unfolding create_threads
  create_threads_all socket i zero all =
      let same : i ≡ i + 0 = omega arith in ap (serving socket) same
  create_threads_all socket i (suc n) all =
      let moved : suc i + n ≡ i + suc n = omega arith in
      rw (all i (omega arith) (omega arith)) (
        create_threads_all socket (suc i) n (λ j low high. all j (omega arith) (omega arith))
        ∙ ap (serving socket) moved)

  create_threads_only :
      (socket s : ℤ) (i n k : ℕ)
      → create_threads socket i n ≡ serving s k
      → (socket ≡ s) × (k ≡ i + n) × ((j : ℕ) → i ≤ j → j < i + n → creates j ≡ true)
  unfolding create_threads
  create_threads_only socket s i zero k e =
      (ground arith, ground arith, λ j low high. absurd (omega arith))
  create_threads_only socket s i (suc n) k e = elim (Bool-cases (creates i)) [
    | inl made ↦
        let step : create_threads socket i (suc n) ≡ create_threads socket (suc i) n =
          rw made refl in
        let (same, count, all) = create_threads_only socket s (suc i) n k (sym step ∙ e) in
        (
          same,
          omega (arith, count),
          λ j low high. elim (Bool-cases (i == j)) [
            | inl here ↦ let at : i ≡ j = ground arith in subst (λ x. creates x ≡ true) at made
            | inr later ↦ all j (ground arith) (omega arith)
          ],
        )
    | inr failed ↦
        let step : create_threads socket i (suc n) ≡ exited (codes "creating thread failed") =
          rw failed refl in
        let bad : exited (codes "creating thread failed") ≡ serving s k = sym step ∙ e in
        absurd (ground arith)
  ]

  -- With a number of threads whose fourfold is an `int`, requests are served just when the socket is opened
  -- and each of the threads is created; they are served by exactly so many threads, with the number
  -- 0 by none.
  pub open_service_iff :
      (n k : ℕ) (socket_path : Bytes) (s : ℤ)
      → n * 4 < 2 ^ 31
      → (open_service (pos n) socket_path ≡ serving s k) ↔ (
          (open_socket socket_path (pos (n * 4)) ≡ s)
          × (is_negative s ≡ false)
          × (k ≡ n)
          × ((i : ℕ) → i < n → creates i ≡ true))
  unfolding open_service
  open_service_iff n k socket_path s small =
      let fits : ltb (n * 4) (2 ^ 31) ≡ true = ground arith in
      (
        (λ e. elim (Bool-cases (is_negative (open_socket socket_path (pos (n * 4))))) [
          | inl bad ↦
              let step : open_service (pos n) socket_path
                  ≡ exited (codes "Error open socket. exit") =
                rw (fits, bad) refl in
              let wrong : exited (codes "Error open socket. exit") ≡ serving s k = sym step ∙ e in
              absurd (ground arith)
          | inr good ↦
              let step : open_service (pos n) socket_path
                  ≡ create_threads (open_socket socket_path (pos (n * 4))) 0 n =
                rw (fits, good) refl in
              let (same, count, all) = create_threads_only _ s 0 n k (sym step ∙ e) in
              (
                same,
                subst (λ x. is_negative x ≡ false) same good,
                omega (arith, count),
                λ i less. all i (omega arith) (omega arith),
              )
        ]),
        (λ (same, good, count, all).
            let total : 0 + n ≡ k = omega (arith, count) in
            rw (fits, same, good)
              (create_threads_all s 0 n (λ i low high. all i (omega arith))
                ∙ ap (serving s) total)),
      )

-- What the handler writes, by the number of the signal: SIGHUP is 1, SIGPIPE is 13.
unfoldable pub signal_handler : (print_thread : ℕ → Bytes) → ℕ → ℕ → List Bytes
signal_handler print_thread tid signum =
    if signum == 1
    then codes "CgiService: sig hup" ∷ []
    else if signum == 13
    then (codes "CgiService: sig pipe "
        ++ codes "sig="
        ++ print signum
        ++ codes " tid="
        ++ print_thread tid)
      ∷ []
    else []
