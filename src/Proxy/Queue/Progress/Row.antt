-- ===== src/Proxy/Queue/Progress/Row.antt =====
-- What a recomputation predicts.
use cache_route.Common.{
  ℕ, ◌+◌, ◌≡◌, refl, ap, sym, ◌∙◌, not, map, keep, subst, true, Option, none, some, List, [], ◌∷◌,
  is_some, Option-cases, inl, inr,
}
use cache_route.Common.Floats.{Floats, IsOrdered, float_max}
use cache_route.Common.Floats.Order.{le_refl, float_max-le}
use cache_route.Proxy.Queue.Task.{ProxyTask, Prediction}
use cache_route.Proxy.Queue.Predict.{Predictors, zero_s}
use cache_route.Proxy.Queue.Reservation.{Reservations, argmin_from}
use cache_route.Proxy.Queue.Progress.{
  emptied, waiting, known_service, reschedule, reschedule_all, recompute,
}
use cache_route.Proxy.Queue.Progress.Order.{
  Between, IsOrderly, waiting_lem, waiting-Between, recompute-IsOrderly,
}

module _ {R : Type 0} ⦃f : Floats R⦄ where
  -- The predicted prefills come one after the other, from `free` on and to `last`.
  abbrev pub IsRow : R → R → List (ProxyTask R) → Type 0
  IsRow free last [] = free ≡ last
  IsRow free last (t ∷ ts) =
      (pr : Prediction R) × (t.predicted ≡ some pr)
      × (f.le free pr.prefill_start_s ≡ true)
      × (f.le pr.prefill_start_s pr.first_token_s ≡ true)
      × IsRow pr.first_token_s last ts

  -- What tells a task, and its number.
  abbrev pub seqs_of : ProxyTask R → ℕ × Option ℕ
  seqs_of t = (t.prepare_seq, t.reservation_seq)

  module _ (ord : IsOrdered f) (p : Predictors R) where
    known_service_nonneg : (o : Option (Prediction R)) → f.le zero_s (known_service p o) ≡ true
    known_service_nonneg none = le_refl ord zero_s
    known_service_nonneg (some old) = (float_max-le ord zero_s _).0

    reschedule_lem :
        (now_s : R) (t : ProxyTask R) (s : Reservations R)
        → is_some t.predicted ≡ true
        → let (t', s') = reschedule p now_s t s in
          (pr : Prediction R) × (t'.predicted ≡ some pr)
          × (f.le s.prefill_free_s pr.prefill_start_s ≡ true)
          × (f.le pr.prefill_start_s pr.first_token_s ≡ true)
          × (s'.prefill_free_s ≡ pr.first_token_s)
    unfolding reschedule
    reschedule_lem now_s t s known = elim (Option-cases t.predicted) [
      | inl e ↦ absurd (cc)
      | inr (old, e) ↦
          let start =
            float_max (float_max now_s (argmin_from 0 s.slot 1 s.slots).1) s.prefill_free_s in
          rw e (
            _,
            refl,
            (float_max-le ord (float_max now_s (argmin_from 0 s.slot 1 s.slots).1)
                s.prefill_free_s).1,
            ord.add_grows _ _ (known_service_nonneg t.predicted),
            ap (λ o. f.add start (known_service p o)) (sym e),
          )
    ]

    reschedule_all-IsRow :
        (now_s : R) (lo hi : ℕ) (ts : List (ProxyTask R)) (s : Reservations R)
        → Between lo hi ts
        → IsRow s.prefill_free_s
            (reschedule_all p now_s ts s).1.prefill_free_s
            (reschedule_all p now_s ts s).0
    unfolding reschedule_all
    reschedule_all-IsRow now_s lo hi [] s h = refl
    reschedule_all-IsRow now_s lo hi (t ∷ ts) s (n, seq, known, low, high, rest) =
        let (t', s') = reschedule p now_s t s in
        let (pr, e, after, grows, last) = reschedule_lem now_s t s known in
        (
          pr,
          e,
          after,
          grows,
          subst
              (λ free.
                IsRow free (reschedule_all p now_s ts s').1.prefill_free_s
                  (reschedule_all p now_s ts s').0)
              last (reschedule_all-IsRow now_s (n + 1) hi ts s' rest),
        )

    reschedule_seq :
        (now_s : R) (t : ProxyTask R) (s : Reservations R)
        → seqs_of (reschedule p now_s t s).0 ≡ seqs_of t
    unfolding reschedule
    reschedule_seq now_s t s = refl

    reschedule_all_seqs :
        (now_s : R) (ts : List (ProxyTask R)) (s : Reservations R)
        → map seqs_of (reschedule_all p now_s ts s).0 ≡ map seqs_of ts
    unfolding reschedule_all
    reschedule_all_seqs now_s [] s = refl
    reschedule_all_seqs now_s (t ∷ ts) s =
        let (t', s') = reschedule p now_s t s in
        ap (λ x. x ∷ map seqs_of (reschedule_all p now_s ts s').0) (reschedule_seq now_s t s)
        ∙ ap (λ xs. seqs_of t ∷ xs) (reschedule_all_seqs now_s ts s')

    -- If times are totally ordered, and the pending tasks have predictions and are numbered in
    -- ascending order below the next number, then a recomputation keeps exactly those of them that
    -- have not given their first token, with their numbers, so that all this holds again; it lays
    -- their predicted prefills one after the other in this order, the first no earlier than now, and
    -- the next reservation will wait for the last of them.
    pub recompute-IsRow :
        (now_s : R) (s : Reservations R)
        → IsOrderly s
        → (map seqs_of (recompute p now_s s).pending
            ≡ map seqs_of (keep (λ t. not t.has_seen_first_token) s.pending))
          × IsOrderly (recompute p now_s s)
          × IsRow now_s (recompute p now_s s).prefill_free_s (recompute p now_s s).pending
    unfolding recompute
    recompute-IsRow now_s s h = (
      reschedule_all_seqs now_s (waiting s.pending) (emptied now_s s)
          ∙ ap (map seqs_of) (waiting_lem 0 s.next_seq s.pending h),
      recompute-IsOrderly p now_s s h,
      reschedule_all-IsRow now_s 0 s.next_seq (waiting s.pending) (emptied now_s s)
          (waiting-Between 0 s.next_seq s.pending h),
    )
