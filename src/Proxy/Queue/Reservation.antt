-- ===== src/Proxy/Queue/Reservation.antt =====
-- `QueueManager._reserve_ready_task`: the predicted timeline of one instance. It runs under the
-- instance's reservation lock, so it is one step on the record below.
pub mod Chain
pub mod Timeline
use cache_route.Common.{
  ℕ, zero, suc, ◌+◌, ◌≡◌, refl, max, Bool, true, false, not, ◌||◌, Option, none, some, List, [],
  ◌∷◌, ◌++◌, set, if◌then◌else◌, or_default, keep, leb, arith,
}
use cache_route.Common.Text.{Text, codes, text_eq, strip, lower}
use cache_route.Common.Floats.{Floats, float_max, lt}
use cache_route.Common.Sort.{sort}
use cache_route.Proxy.Queue.Task.{ProxyTask, Prediction, or_text}
use cache_route.Proxy.Queue.Predict.{
  Predictors, predict_prefill_service, predict_decode_total, to_ms, zero_s,
}

-- The entries of one instance in the manager's dicts. There is at least one slot: `slot` is the
-- first of them.
pub record Reservations (R : Type 0) : Type 0 where
  pub slot : R
  pub slots : List R
  pub prefill_free_s : R
  pub next_seq : ℕ
  pub pending : List (ProxyTask R)
  pub decode : List (ProxyTask R)
  pub cold_start : Bool

-- `stage.strip().lower()`, and "prefill" for what is neither of the two.
stage_of : Text → Text
stage_of raw =
    let stage = lower (strip raw) in
    if text_eq stage (codes "prefill") || text_eq stage (codes "decode")
    then stage
    else codes "prefill"

module _ {R : Type 0} ⦃f : Floats R⦄ where
  -- `min(range(len(slots)), key=…)`: the first index of the least, and the least. `i` is the index
  -- of the head of the list, `best` that of the least so far.
  unfoldable pub argmin_from : ℕ → R → ℕ → List R → ℕ × R
  argmin_from best m i [] = (best, m)
  argmin_from best m i (x ∷ xs) =
      argmin_from (if lt x m then i else best) (if lt x m then x else m) (suc i) xs

  -- `slots[i] = v`
  abbrev pub set_slot : ℕ → R → Reservations R → Reservations R
  set_slot zero v s = record s { slot = v }
  set_slot (suc i) v s = record s { slots = set s.slots i v }

abbrev pub le_seq : {R : Type 0} → ProxyTask R → ProxyTask R → Bool
le_seq t u = leb (or_default t.reservation_seq 0) (or_default u.reservation_seq 0)

module _ {R : Type 0} ⦃f : Floats R⦄ (p : Predictors R) where
  -- `ready_enqueue_ms` is what the trace has, `now_s` the reading of the clock after it.
  unfoldable pub reserve : ProxyTask R → ℕ → R → Reservations R → ProxyTask R × Reservations R
  unfolding argmin_from stage_of predict_prefill_service predict_decode_total sort
  reserve t ready_enqueue_ms now_s s =
      let (service_s, service) = predict_prefill_service p t in
      let stage = stage_of t.predict_stage in
      let (slot_idx, slot_free) = argmin_from 0 s.slot 1 s.slots in
      let ready_enqueue_s = f.div (f.of_ℕ ready_enqueue_ms) (f.of_ℕ 1000) in
      let know_prepare_s = f.div (f.of_ℕ t.know_prepare_ms) (f.of_ℕ 1000) in
      let slot_ready_s = float_max now_s slot_free in
      let prefill_start_s = float_max slot_ready_s s.prefill_free_s in
      let first_token_s = f.add prefill_start_s service_s in
      let decode_s =
        if text_eq stage (codes "prefill")
        then predict_decode_total p (record t { predict_stage = stage })
        else zero_s in
      let cold_start_extra_ms = if s.cold_start then 600 else 0 in
      let prediction : Prediction R = record {
        slot_idx = slot_idx;
        slot_ready_s = slot_ready_s;
        forward_start_s = prefill_start_s;
        prefill_start_s = prefill_start_s;
        first_token_s = first_token_s;
        decode_s = decode_s;
        forward_end_s = f.add first_token_s decode_s;
        service_s = service_s;
        service = service;
        queue_wait_ms = to_ms (f.sub prefill_start_s ready_enqueue_s);
        cold_start_extra_ms = cold_start_extra_ms;
        total_ms =
            to_ms (f.add (f.add know_prepare_s (f.sub first_token_s ready_enqueue_s)) decode_s)
            + cold_start_extra_ms;
        recompute_generation = 0;
      } in
      let t' = record t {
        predict_stage = stage;
        reservation_seq = some s.next_seq;
        predicted = some prediction;
      } in
      (
        t',
        record (set_slot slot_idx first_token_s s) {
          prefill_free_s = first_token_s;
          next_seq = s.next_seq + 1;
          pending = sort le_seq (s.pending ++ t' ∷ []);
          cold_start = false;
        },
      )
