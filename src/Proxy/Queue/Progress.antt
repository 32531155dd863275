-- ===== src/Proxy/Queue/Progress.antt =====
-- What happens to a reservation after it is made: `_recompute_pending_from_now`,
-- `_mark_task_first_token_and_recompute`, `_mark_task_decode_end` with
-- `_remove_task_from_prediction_state`, and the test of `_wait_dispatch_turn`. Each section that
-- holds the reservation lock is one step; the recomputation takes the lock anew, so it is a step of
-- its own. A task is one object in the code: `prepare_seq`, which no two tasks of an instance share,
-- tells it here, and `pending` and `decode` hold its current value.
pub mod Order
pub mod Row
pub mod Turn
use cache_route.Common.{
  ℕ, ◌+◌, ◌≡◌, Bool, true, false, not, Option, none, some, List, [], ◌∷◌, ◌++◌, map, ◌==◌,
  if◌then◌else◌, or_default, keep, length, ◌||◌,
}
use cache_route.Common.Text.{codes, text_eq}
use cache_route.Common.Floats.{Floats, float_max}
use cache_route.Common.Sort.{sort}
use cache_route.Proxy.Queue.Task.{ProxyTask, Prediction, ReleaseTrace}
use cache_route.Proxy.Queue.Predict.{Predictors, predict_decode_total, to_ms, zero_s}
use cache_route.Proxy.Queue.Reservation.{Reservations, argmin_from, set_slot, le_seq, reserve}

module _ {R : Type 0} where
  -- All slots and the prefill are free now.
  abbrev pub emptied : R → Reservations R → Reservations R
  emptied now_s s = record s {
    slot = now_s;
    slots = map (λ x. now_s) s.slots;
    prefill_free_s = now_s;
  }

  -- `t is task`
  abbrev pub same : ProxyTask R → ProxyTask R → Bool
  same t u = t.prepare_seq == u.prepare_seq

  -- `[t for t in xs if t is not task]`
  abbrev pub without : ProxyTask R → List (ProxyTask R) → List (ProxyTask R)
  without t = keep (λ u. not (same u t))

  -- `[t for t in xs if not t.has_seen_first_token]`, sorted.
  unfoldable pub waiting : List (ProxyTask R) → List (ProxyTask R)
  unfolding sort
  waiting ts = sort le_seq (keep (λ t. not t.has_seen_first_token) ts)

  -- The task's new value where it is listed, and at the end where it is not.
  abbrev pub put_task : ProxyTask R → List (ProxyTask R) → List (ProxyTask R)
  put_task t [] = t ∷ []
  put_task t (u ∷ us) = let rest = put_task t us in if same u t then t ∷ us else u ∷ rest

module _ {R : Type 0} ⦃f : Floats R⦄ (p : Predictors R) where
  -- The entries that a recomputation writes; `old` is the prediction that the task has.
  abbrev pub moved : Prediction R → ProxyTask R → R → ℕ × R → R → R → R → Prediction R
  moved old t now_s (slot_idx, slot_ready_s) prefill_start_s service_s decode_s =
      let ready_enqueue_ms : ℕ = elim t.released [
        | none ↦ to_ms now_s
        | some r ↦ r.ready_enqueue_ms
      ] in
      let ready_enqueue_s = f.div (f.of_ℕ ready_enqueue_ms) (f.of_ℕ 1000) in
      let first_token_s = f.add prefill_start_s service_s in
      record old {
        slot_idx = slot_idx;
        slot_ready_s = slot_ready_s;
        forward_start_s = prefill_start_s;
        prefill_start_s = prefill_start_s;
        first_token_s = first_token_s;
        decode_s = decode_s;
        forward_end_s = f.add first_token_s decode_s;
        queue_wait_ms = to_ms (f.sub prefill_start_s ready_enqueue_s);
        total_ms = f.trunc (
            f.add (f.of_ℕ t.know_prepare_ms)
              (f.mul (f.add (f.sub first_token_s ready_enqueue_s) decode_s) (f.of_ℕ 1000)));
        recompute_generation = old.recompute_generation + 1;
      }

  -- `max(0.0, task.pred_service_ms / 1000.0)`
  abbrev pub known_service : Option (Prediction R) → R
  known_service none = zero_s
  known_service (some old) = float_max zero_s (f.div (f.of_ℕ (to_ms old.service_s)) (f.of_ℕ 1000))

  -- The loop's body. A pending task has a prediction.
  unfoldable pub reschedule : R → ProxyTask R → Reservations R → ProxyTask R × Reservations R
  unfolding argmin_from predict_decode_total
  reschedule now_s t s =
      let (slot_idx, slot_free) = argmin_from 0 s.slot 1 s.slots in
      let slot_ready_s = float_max now_s slot_free in
      let prefill_start_s = float_max slot_ready_s s.prefill_free_s in
      let service_s = known_service t.predicted in
      let first_token_s = f.add prefill_start_s service_s in
      let decode_s =
        if text_eq t.predict_stage (codes "prefill") then predict_decode_total p t else zero_s in
      let predicted : Option (Prediction R) = elim t.predicted [
        | none ↦ none
        | some old ↦
            some (moved old t now_s (slot_idx, slot_ready_s) prefill_start_s service_s decode_s)
      ] in
      (
        record t { predicted = predicted },
        record (set_slot slot_idx first_token_s s) { prefill_free_s = first_token_s },
      )

  unfoldable pub reschedule_all :
      R → List (ProxyTask R) → Reservations R → List (ProxyTask R) × Reservations R
  reschedule_all now_s [] s = ([], s)
  reschedule_all now_s (t ∷ ts) s =
      let (t', s') = reschedule now_s t s in
      let (ts', s'') = reschedule_all now_s ts s' in (t' ∷ ts', s'')

  -- `_recompute_pending_from_now`
  unfoldable pub recompute : R → Reservations R → Reservations R
  recompute now_s s =
      let (pending, s') = reschedule_all now_s (waiting s.pending) (emptied now_s s) in
      record s' { pending = pending }

module _ {R : Type 0} where
  -- The locked section of `_mark_task_first_token_and_recompute`.
  unfoldable pub mark_first_token : R → ProxyTask R → Reservations R → Reservations R
  mark_first_token now_s t s = record s {
    decode =
        put_task (record t { has_seen_first_token = true; predict_stage = codes "decode" })
          s.decode;
    prefill_free_s = now_s;
    pending = without t s.pending;
  }

  -- `_remove_task_from_prediction_state`: whether it removed anything, and the state after it.
  unfoldable pub remove_task : ProxyTask R → Reservations R → Bool × Reservations R
  remove_task t s =
      let pending = without t s.pending in
      let decode = without t s.decode in
      (
        not (length pending == length s.pending) || not (length decode == length s.decode),
        record s { pending = pending; decode = decode },
      )

  -- The locked section of `_mark_task_decode_end`: whether it goes on to recompute.
  unfoldable pub mark_decode_end : ProxyTask R → Reservations R → Bool × Reservations R
  unfolding remove_task
  mark_decode_end t s =
      let s' = (remove_task t s).1 in (not (length s'.pending == length s.pending), s')

  -- `pending[0] is task`, or nothing is pending.
  abbrev pub first_of : ProxyTask R → List (ProxyTask R) → Bool
  first_of t [] = true
  first_of t (u ∷ us) = same u t

  -- Whether `_wait_dispatch_turn` returns when it looks.
  unfoldable pub has_turn : ProxyTask R → Reservations R → Bool
  has_turn t s = first_of t (waiting s.pending)
