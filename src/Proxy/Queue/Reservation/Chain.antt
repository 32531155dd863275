-- ===== src/Proxy/Queue/Reservation/Chain.antt =====
-- Reservations in a row on one instance.
use cache_route.Common.{ℕ, ◌+◌, ◌≡◌, true, none, some, List, [], ◌∷◌}
use mathlib.Core.Path.{subst₂}
use cache_route.Common.Floats.{Floats, IsOrdered}
use cache_route.Proxy.Queue.Task.{ProxyTask, Prediction}
use cache_route.Proxy.Queue.Predict.{Predictors}
use cache_route.Proxy.Queue.Reservation.{Reservations, reserve}
use cache_route.Proxy.Queue.Reservation.Timeline.{reserve-Follows}

module _ {R : Type 0} ⦃f : Floats R⦄ where
  -- Each task has the next number, and its predicted prefill begins once the one before has ended.
  abbrev pub IsChain : ℕ → R → List (ProxyTask R) → Type 0
  IsChain seq free [] = Unit
  IsChain seq free (t ∷ ts) = elim t.predicted [
    | none ↦ ⊥
    | some pr ↦
        (t.reservation_seq ≡ some seq)
        × (f.le free pr.prefill_start_s ≡ true)
        × (f.le pr.prefill_start_s pr.first_token_s ≡ true)
        × IsChain (seq + 1) pr.first_token_s ts
  ]

  IsChain-cons :
      (seq : ℕ) (free : R) (t : ProxyTask R) (pr : Prediction R) (ts : List (ProxyTask R))
      → t.predicted ≡ some pr
      → (t.reservation_seq ≡ some seq)
        × (f.le free pr.prefill_start_s ≡ true)
        × (f.le pr.prefill_start_s pr.first_token_s ≡ true)
        × IsChain (seq + 1) pr.first_token_s ts
      → IsChain seq free (t ∷ ts)
  IsChain-cons seq free t pr ts e h = rw (e, IsChain) h

  module _ (p : Predictors R) where
    -- Each task with the `ready_enqueue_ms` of its trace and the clock's reading.
    pub reserve_all :
        List (ProxyTask R × ℕ × R) → Reservations R → List (ProxyTask R) × Reservations R
    reserve_all [] s = ([], s)
    reserve_all ((t, ms, now_s) ∷ rest) s =
        let (t', s') = reserve p t ms now_s s in
        let (ts, s'') = reserve_all rest s' in (t' ∷ ts, s'')

    -- Whatever the tasks, the readings of the clock and the predictions, successive reservations
    -- of an instance are numbered one after the other, and their predicted prefills do not overlap
    -- and come in that order, after the prefill that was reserved before them.
    pub reserve_all-IsChain :
        (ord : IsOrdered f) (ts : List (ProxyTask R × ℕ × R)) (s : Reservations R)
        → IsChain s.next_seq s.prefill_free_s (reserve_all ts s).0
    unfolding reserve_all
    reserve_all-IsChain ord [] s = tt
    reserve_all-IsChain ord ((t, ms, now_s) ∷ rest) s =
        let (pr, h) = reserve-Follows ord p t ms now_s s in
        let (t', s') = reserve p t ms now_s s in
        IsChain-cons s.next_seq s.prefill_free_s t' pr (reserve_all rest s').0 h.predicted (
          h.numbered,
          h.after_prefill,
          h.grows,
          subst₂ (λ seq free. IsChain seq free (reserve_all rest s').0) h.counted h.next_waits
              (reserve_all-IsChain ord rest s'),
        )
