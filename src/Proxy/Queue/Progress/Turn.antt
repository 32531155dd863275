-- ===== src/Proxy/Queue/Progress/Turn.antt =====
-- Who may go on to the instance.
use cache_route.Common.{
  ℕ, ◌+◌, ◌≡◌, ◌≤◌, ◌↔◌, refl, ap, sym, true, some, or_default, All-of_Member, All-Member, List, [],
  ◌∷◌, All, Member, arith, inl, inr,
}
use cache_route.Proxy.Queue.Task.{ProxyTask}
use cache_route.Proxy.Queue.Reservation.{Reservations}
use cache_route.Proxy.Queue.Progress.{same, waiting, first_of, has_turn}
use cache_route.Proxy.Queue.Progress.Order.{Between, IsOrderly, waiting-Between}

module _ {R : Type 0} where
  Between-Member :
      (lo hi : ℕ) (ts : List (ProxyTask R)) (t : ProxyTask R)
      → Between lo hi ts
      → Member t ts
      → (n : ℕ) × (t.reservation_seq ≡ some n) × (lo ≤ n)
  Between-Member lo hi [] t h m = absurd m
  Between-Member lo hi (u ∷ ts) t (n, seq, known, low, high, rest) (inl e) = (n, rw e seq, low)
  Between-Member lo hi (u ∷ ts) t (n, seq, known, low, high, rest) (inr m) =
      let (k, seq', low') = Between-Member (n + 1) hi ts t rest m in (k, seq', omega arith)

  seq_eq :
      (t u : ProxyTask R) (m n : ℕ)
      → t ≡ u
      → t.reservation_seq ≡ some m
      → u.reservation_seq ≡ some n
      → m ≡ n
  seq_eq t u m n e h h' =
      let seqs : t.reservation_seq ≡ u.reservation_seq = ap (λ v. v.reservation_seq) e in
      ground arith

  first_turn :
      (lo n hi : ℕ) (ts : List (ProxyTask R)) (t : ProxyTask R)
      → Between lo hi ts
      → ((u : ProxyTask R) → Member u ts → same u t ≡ true → u ≡ t)
      → Member t ts
      → t.reservation_seq ≡ some n
      → (first_of t ts ≡ true)
        ↔ ((u : ProxyTask R) (k : ℕ) → Member u ts → u.reservation_seq ≡ some k → n ≤ k)
  first_turn lo n hi [] t h apart m e = absurd m
  first_turn lo n hi (u ∷ us) t (n', seq, known, low, high, rest) apart m e = (out, back)
    where
      out :
          same u t ≡ true
          → (v : ProxyTask R) (k : ℕ) → Member v (u ∷ us)
          → v.reservation_seq ≡ some k
          → n ≤ k
      out h v k (inl e') e'' =
          omega
            (arith, seq_eq t u n n' (sym (apart u (inl refl) h)) e seq, seq_eq v u k n' e' e'' seq)
      out h v k (inr m') e'' =
          let (k', found, above) = Between-Member (n' + 1) hi us v rest m' in
          omega (
            arith,
            seq_eq t u n n' (sym (apart u (inl refl) h)) e seq,
            above,
            seq_eq v v k k' refl e'' found,
          )

      back :
          ((v : ProxyTask R) (k : ℕ) → Member v (u ∷ us) → v.reservation_seq ≡ some k → n ≤ k)
          → same u t ≡ true
      back h = elim m [
        | inl e' ↦
            let eq : t.prepare_seq ≡ u.prepare_seq = ap (λ v. v.prepare_seq) e' in ground arith
        | inr m' ↦
            let (k, found, above) = Between-Member (n' + 1) hi us t rest m' in
            absurd (omega (arith, h u n' (inl refl) seq, above, seq_eq t t k n refl found e))
      ]

  -- No task of the list has a number smaller than `n`.
  abbrev pub NoneBefore : ℕ → List (ProxyTask R) → Type 0
  NoneBefore n = All (λ u. n ≤ or_default u.reservation_seq 0)

  -- In orderly reservations, where `prepare_seq` tells tasks apart, a waiting task has its turn
  -- exactly when no waiting task has a smaller number.
  pub has_turn_lem :
      (t : ProxyTask R) (n : ℕ) (s : Reservations R)
      → IsOrderly s
      → ((u : ProxyTask R) → Member u (waiting s.pending) → same u t ≡ true → u ≡ t)
      → Member t (waiting s.pending)
      → t.reservation_seq ≡ some n
      → (has_turn t s ≡ true) ↔ NoneBefore n (waiting s.pending)
  unfolding has_turn
  has_turn_lem t n s h apart m e =
      let ts = waiting s.pending in
      let b = waiting-Between 0 s.next_seq s.pending h in
      let (out, back) = first_turn 0 n s.next_seq ts t b apart m e in
      (
        λ turn.
            All-of_Member (λ u. n ≤ or_default u.reservation_seq 0) ts
              (λ u mu.
                let (k, found, low) = Between-Member 0 s.next_seq ts u b mu in
                rw found (out turn u k mu found)),
        λ all. back (λ u k mu found.
            rw found at (All-Member (λ v. n ≤ or_default v.reservation_seq 0) ts u all mu)),
      )
