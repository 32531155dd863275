-- ===== src/Proxy/Queue/Progress/Order.antt =====
-- The pending tasks of an instance, through all that happens to its reservations.
use cache_route.Common.{
  ℕ, zero, suc, ◌+◌, ◌≡◌, ◌≤◌, ◌<◌, refl, ap, subst, sym, ◌∙◌, Bool, true, not, some, List, [], ◌∷◌,
  ◌++◌, keep, is_some, arith, Bool-cases, inl, inr,
}
use cache_route.Common.Floats.{Floats}
use cache_route.Common.Sort.{sort, insert_sorted}
use cache_route.Proxy.Queue.Task.{ProxyTask}
use cache_route.Proxy.Queue.Predict.{Predictors}
use cache_route.Proxy.Queue.Reservation.{Reservations, set_slot, le_seq, reserve}
use cache_route.Proxy.Queue.Progress.{
  emptied, waiting, reschedule, reschedule_all, recompute, mark_first_token, remove_task,
  mark_decode_end,
}

-- Each section under the reservation lock, in the order in which they took it.
pub data Event (R : Type 0) : Type 0 where
  reserves : ProxyTask R → ℕ → R → Event R
  first_tokens decode_ends : R → ProxyTask R → Event R
  recomputes : R → Event R

module _ {R : Type 0} where
  -- Numbered from `lo` on and below `hi`, in ascending order, and with predictions.
  abbrev pub Between : ℕ → ℕ → List (ProxyTask R) → Type 0
  Between lo hi [] = Unit
  Between lo hi (t ∷ ts) =
      (n : ℕ) × (t.reservation_seq ≡ some n)
      × (is_some t.predicted ≡ true)
      × (lo ≤ n)
      × (n < hi)
      × Between (n + 1) hi ts

  -- The pending tasks are numbered in their order, all below the next number.
  abbrev pub IsOrderly : Reservations R → Type 0
  IsOrderly s = Between 0 s.next_seq s.pending

  Between-lower :
      (lo lo' hi : ℕ) (ts : List (ProxyTask R)) → lo' ≤ lo → Between lo hi ts → Between lo' hi ts
  Between-lower lo lo' hi [] l h = tt
  Between-lower lo lo' hi (t ∷ ts) l (n, seq, known, low, high, rest) =
      (n, seq, known, omega arith, high, rest)

  pub keep-Between :
      (q : ProxyTask R → Bool) (lo hi : ℕ) (ts : List (ProxyTask R))
      → Between lo hi ts
      → Between lo hi (keep q ts)
  keep-Between q lo hi [] h = tt
  keep-Between q lo hi (t ∷ ts) (n, seq, known, low, high, rest) = elim (Bool-cases (q t)) [
    | inl e ↦ rw e ((n, seq, known, low, high, keep-Between q (n + 1) hi ts rest))
    | inr e ↦
        rw e (
          Between-lower (n + 1) lo hi (keep q ts) (omega arith) (keep-Between q (n + 1) hi ts rest))
  ]

  append-Between :
      (lo hi : ℕ) (ts : List (ProxyTask R)) (t : ProxyTask R)
      → t.reservation_seq ≡ some hi
      → is_some t.predicted ≡ true
      → lo ≤ hi
      → Between lo hi ts
      → Between lo (hi + 1) (ts ++ t ∷ [])
  append-Between lo hi [] t seq known l h = (hi, seq, known, l, omega arith, tt)
  append-Between lo hi (u ∷ ts) t seq known l (n, seq', known', low, high, rest) = (
    n,
    seq',
    known',
    low,
    omega arith,
    append-Between (n + 1) hi ts t seq known (omega arith) rest,
  )

  le_seq-some :
      (t u : ProxyTask R) (m n : ℕ)
      → t.reservation_seq ≡ some m
      → u.reservation_seq ≡ some n
      → m ≤ n
      → le_seq t u ≡ true
  le_seq-some t u m n e e' l = rw (e, e') (ground arith)

  -- Ascending tasks are sorted already.
  pub sort-Between : (lo hi : ℕ) (ts : List (ProxyTask R)) → Between lo hi ts → sort le_seq ts ≡ ts
  unfolding sort insert_sorted
  sort-Between lo hi [] h = refl
  sort-Between lo hi (t ∷ []) h = refl
  sort-Between lo hi (t ∷ u ∷ ts) (n, seq, known, low, high, (m, seq', known', low', high', rest)) =
      let tail = sort-Between (n + 1) hi (u ∷ ts) (m, seq', known', low', high', rest) in
      ap (insert_sorted le_seq t) tail ∙ rw (le_seq-some t u n m seq seq' (omega arith)) refl

  -- So the waiting tasks are the pending ones that have not given their first token.
  pub waiting_lem :
      (lo hi : ℕ) (ts : List (ProxyTask R))
      → Between lo hi ts
      → waiting ts ≡ keep (λ t. not t.has_seen_first_token) ts
  unfolding waiting
  waiting_lem lo hi ts h =
      sort-Between lo hi _ (keep-Between (λ t. not t.has_seen_first_token) lo hi ts h)

  pub waiting-Between :
      (lo hi : ℕ) (ts : List (ProxyTask R)) → Between lo hi ts → Between lo hi (waiting ts)
  waiting-Between lo hi ts h =
      subst (Between lo hi) (sym (waiting_lem lo hi ts h))
        (keep-Between (λ t. not t.has_seen_first_token) lo hi ts h)

  mark_first_token-IsOrderly :
      (now_s : R) (t : ProxyTask R) (s : Reservations R)
      → IsOrderly s
      → IsOrderly (mark_first_token now_s t s)
  unfolding mark_first_token
  mark_first_token-IsOrderly now_s t s h = keep-Between _ 0 s.next_seq s.pending h

  mark_decode_end-IsOrderly :
      (t : ProxyTask R) (s : Reservations R) → IsOrderly s → IsOrderly (mark_decode_end t s).1
  unfolding mark_decode_end remove_task
  mark_decode_end-IsOrderly t s h = keep-Between _ 0 s.next_seq s.pending h

module _ {R : Type 0} ⦃f : Floats R⦄ where
  pub next_seq-set_slot :
      (i : ℕ) (v : R) (s : Reservations R) → (set_slot i v s).next_seq ≡ s.next_seq
  next_seq-set_slot zero v s = refl
  next_seq-set_slot (suc i) v s = refl

module _ {R : Type 0} ⦃f : Floats R⦄ (p : Predictors R) where
  unfoldable pub step : Reservations R → Event R → Reservations R
  step s (Event.reserves t ms now_s) = (reserve p t ms now_s s).1
  step s (Event.first_tokens now_s t) = mark_first_token now_s t s
  step s (Event.decode_ends now_s t) = (mark_decode_end t s).1
  step s (Event.recomputes now_s) = recompute p now_s s

  unfoldable pub run : Reservations R → List (Event R) → Reservations R
  run s [] = s
  run s (e ∷ es) = run (step s e) es

  reschedule_keeps :
      (now_s : R) (t : ProxyTask R) (s : Reservations R)
      → let (t', s') = reschedule p now_s t s in
        (t'.reservation_seq ≡ t.reservation_seq)
        × (is_some t'.predicted ≡ is_some t.predicted)
        × (s'.next_seq ≡ s.next_seq)
  unfolding reschedule
  reschedule_keeps now_s t s = (refl, ground arith, next_seq-set_slot _ _ s)

  reschedule_all-Between :
      (now_s : R) (lo hi : ℕ) (ts : List (ProxyTask R)) (s : Reservations R)
      → Between lo hi ts
      → Between lo hi (reschedule_all p now_s ts s).0
        × ((reschedule_all p now_s ts s).1.next_seq ≡ s.next_seq)
  unfolding reschedule_all
  reschedule_all-Between now_s lo hi [] s h = (tt, refl)
  reschedule_all-Between now_s lo hi (t ∷ ts) s (n, seq, known, low, high, rest) =
      let (same_seq, same_known, same_next) = reschedule_keeps now_s t s in
      let (tail, next) =
        reschedule_all-Between now_s (n + 1) hi ts (reschedule p now_s t s).1 rest in
      ((n, same_seq ∙ seq, same_known ∙ known, low, high, tail), next ∙ same_next)

  pub recompute-IsOrderly :
      (now_s : R) (s : Reservations R) → IsOrderly s → IsOrderly (recompute p now_s s)
  unfolding recompute
  recompute-IsOrderly now_s s h =
      let (b, next) =
        reschedule_all-Between now_s 0 s.next_seq (waiting s.pending) (emptied now_s s)
          (waiting-Between 0 s.next_seq s.pending h) in
      subst (λ n. Between 0 n (reschedule_all p now_s (waiting s.pending) (emptied now_s s)).0)
        (sym next) b

  reserve-IsOrderly :
      (t : ProxyTask R) (ms : ℕ) (now_s : R) (s : Reservations R)
      → IsOrderly s
      → IsOrderly (reserve p t ms now_s s).1
  unfolding reserve
  reserve-IsOrderly t ms now_s s h =
      let b =
        append-Between 0 s.next_seq s.pending (reserve p t ms now_s s).0 refl refl (omega arith)
          h in
      subst (Between 0 (s.next_seq + 1)) (sym (sort-Between 0 (s.next_seq + 1) _ b)) b

  -- Whatever is reserved, gives its first token, ends or is recomputed, and in whatever order, the
  -- pending tasks of an instance stay in the order of their numbers, each once, below the next
  -- number, and with predictions.
  pub run-IsOrderly :
      (s : Reservations R) (es : List (Event R)) → IsOrderly s → IsOrderly (run s es)
  unfolding run step
  run-IsOrderly s [] h = h
  run-IsOrderly s (Event.reserves t ms now_s ∷ es) h =
      run-IsOrderly (reserve p t ms now_s s).1 es (reserve-IsOrderly t ms now_s s h)
  run-IsOrderly s (Event.first_tokens now_s t ∷ es) h =
      run-IsOrderly (mark_first_token now_s t s) es (mark_first_token-IsOrderly now_s t s h)
  run-IsOrderly s (Event.decode_ends now_s t ∷ es) h =
      run-IsOrderly (mark_decode_end t s).1 es (mark_decode_end-IsOrderly t s h)
  run-IsOrderly s (Event.recomputes now_s ∷ es) h =
      run-IsOrderly (recompute p now_s s) es (recompute-IsOrderly now_s s h)
