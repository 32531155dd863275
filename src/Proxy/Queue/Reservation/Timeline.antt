-- ===== src/Proxy/Queue/Reservation/Timeline.antt =====
-- The predicted prefills of one instance follow one another, and each takes the slot free first.
use cache_route.Common.{
  ℕ, zero, suc, ◌+◌, ◌≡◌, ◌⊎◌, refl, get_elem?, set, arith, ap, ◌∙◌, true, some, List, [], ◌∷◌, All,
  if◌then◌else◌, Bool, false, Bool-cases, inl, inr,
}
use cache_route.Common.Text.{codes, text_eq}
use cache_route.Common.Floats.{Floats, IsOrdered, float_max, lt}
use cache_route.Common.Floats.Order.{le_refl, smaller, smaller-le, float_max-le}
use cache_route.Proxy.Queue.Task.{ProxyTask, Prediction, injection_mode}
use cache_route.Proxy.Queue.Predict.{Predictors, predict_prefill_service, zero_s}
use cache_route.Proxy.Queue.Reservation.{Reservations, reserve, argmin_from, set_slot}

module _ {R : Type 0} ⦃f : Floats R⦄ (ord : IsOrdered f) where
  -- The least is where its index says, and is at most all that were read.
  argmin_from-le :
      (best : ℕ) (m : R) (i : ℕ) (xs : List R)
      → (f.le (argmin_from best m i xs).1 m ≡ true)
        × All (λ x. f.le (argmin_from best m i xs).1 x ≡ true) xs
  unfolding argmin_from
  argmin_from-le best m i [] = (le_refl ord m, tt)
  argmin_from-le best m i (x ∷ xs) =
      let (h, t) = argmin_from-le (if lt x m then i else best) (smaller ord m x) (suc i) xs in
      let (low, low') = smaller-le ord m x in
      (ord.le_trans _ (smaller ord m x) m h low, (ord.le_trans _ (smaller ord m x) x h low', t))

  -- The index says where the least is, if it did so for the least that was read before.
  argmin_from-index :
      (best : ℕ) (m : R) (i : ℕ) (all xs : List R)
      → get_elem? all best ≡ some m
      → ((j : ℕ) → get_elem? all (i + j) ≡ get_elem? xs j)
      → get_elem? all (argmin_from best m i xs).0 ≡ some (argmin_from best m i xs).1
  unfolding argmin_from
  argmin_from-index best m i all [] at rest = at
  argmin_from-index best m i all (x ∷ xs) at rest =
      argmin_from-index (if lt x m then i else best) (if lt x m then x else m) (suc i) all xs
        (picked (lt x m)) later
    where
      shifted : {a b : ℕ} → a ≡ b → get_elem? all a ≡ get_elem? all b
      shifted e = ap (get_elem? all) e

      picked : (b : Bool) → get_elem? all (if b then i else best) ≡ some (if b then x else m)
      picked true = shifted (omega arith) ∙ rest 0
      picked false = at

      later : (j : ℕ) → get_elem? all (suc i + j) ≡ get_elem? xs j
      later j = shifted (omega arith) ∙ rest (suc j)

  set_slot_list :
      (i : ℕ) (v : R) (s : Reservations R)
      → let s' = set_slot i v s in s'.slot ∷ s'.slots ≡ set (s.slot ∷ s.slots) i v
  set_slot_list zero v s = refl
  set_slot_list (suc i) v s = refl

  no_later :
      (now_s free prefill : R)
      → let start = float_max (float_max now_s free) prefill in
        (start ≡ now_s) ⊎ (start ≡ free) ⊎ (start ≡ prefill)
  no_later now_s free prefill = ground arith

  module _ (p : Predictors R) where
    service_nonneg : (t : ProxyTask R) → f.le zero_s (predict_prefill_service p t).0 ≡ true
    unfolding predict_prefill_service
    service_nonneg t = elim (Bool-cases (text_eq (injection_mode t) (codes "kvcache"))) [
      | inl e ↦ rw e ((float_max-le ord zero_s _).0)
      | inr e ↦ rw e ((float_max-le ord zero_s _).0)
    ]

    -- What a reservation says of the task, against the timeline before and after it: its slot is
    -- one that is free first, the prefill begins no earlier than now, than the slot is free and
    -- than the prefill before it ends, and at one of these times, it ends no earlier than it
    -- begins, the slot alone is taken until then, and the next one waits for it.
    pub record Follows (now_s : R) (s s' : Reservations R) (t' : ProxyTask R) (pr : Prediction R)
        : Type 0 where
      pub predicted : t'.predicted ≡ some pr
      pub numbered : t'.reservation_seq ≡ some s.next_seq
      pub counted : s'.next_seq ≡ s.next_seq + 1
      pub free : R
      pub taken : get_elem? (s.slot ∷ s.slots) pr.slot_idx ≡ some free
      pub earliest : All (λ x. f.le free x ≡ true) (s.slot ∷ s.slots)
      pub after_slot : f.le free pr.prefill_start_s ≡ true
      pub after_now : f.le now_s pr.prefill_start_s ≡ true
      pub after_prefill : f.le s.prefill_free_s pr.prefill_start_s ≡ true
      pub no_later :
          (pr.prefill_start_s ≡ now_s)
          ⊎ (pr.prefill_start_s ≡ free)
          ⊎ (pr.prefill_start_s ≡ s.prefill_free_s)
      pub slots_after : s'.slot ∷ s'.slots ≡ set (s.slot ∷ s.slots) pr.slot_idx pr.first_token_s
      pub grows : f.le pr.prefill_start_s pr.first_token_s ≡ true
      pub next_waits : s'.prefill_free_s ≡ pr.first_token_s

    -- If times are totally ordered, a reservation takes the next number and a slot that is free first;
    -- its prefill begins at the latest of now, the time that this slot is free and the end of the
    -- prefill reserved before, and does not end before it begins; afterwards this slot is free at
    -- that end, all other slots are as they were, and the next prefill will wait for that end.
    pub reserve-Follows :
        (t : ProxyTask R) (ready_enqueue_ms : ℕ) (now_s : R) (s : Reservations R)
        → let (t', s') = reserve p t ready_enqueue_ms now_s s in
          (pr : Prediction R) × Follows now_s s s' t' pr
    unfolding reserve
    reserve-Follows t ready_enqueue_ms now_s s =
        let (slot_idx, free) = argmin_from 0 s.slot 1 s.slots in
        let (low, lows) = argmin_from-le 0 s.slot 1 s.slots in
        let ready = float_max now_s free in
        let (a, b) = float_max-le ord now_s free in
        let (c, d) = float_max-le ord ready s.prefill_free_s in
        (
          _,
          record {
            predicted = refl;
            numbered = refl;
            counted = refl;
            free = free;
            taken =
                argmin_from-index 0 s.slot 1 (s.slot ∷ s.slots) s.slots refl
                  (λ j. ap (get_elem? (s.slot ∷ s.slots)) {x = 1 + j} {y = suc j} (omega arith));
            no_later = no_later now_s free s.prefill_free_s;
            slots_after = set_slot_list slot_idx _ s;
            earliest = (low, lows);
            after_slot = ord.le_trans _ _ _ b c;
            after_now = ord.le_trans _ _ _ a c;
            after_prefill = d;
            grows = ord.add_grows _ _ (service_nonneg t);
            next_waits = refl;
          },
        )
