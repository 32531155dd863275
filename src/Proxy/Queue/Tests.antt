-- ===== src/Proxy/Queue/Tests.antt =====
-- The queue's theorems at concrete tasks. The predicted times are whole numbers, and a prefill
-- takes as long as it has tokens.
mod Turns
use cache_route.Common.{
  ℕ, suc, ◌+◌, ◌%◌, ◌≡◌, ◌≤◌, ◌<◌, refl, true, false, none, some, List, [], ◌∷◌, map, arith,
  if◌then◌else◌,
}
use cache_route.Common.Text.{codes, text_eq, lower, strip}
use cache_route.Common.Dict.{lookup, IsDict}
use cache_route.Common.Floats.Naturals.{whole_numbers, whole_numbers-IsOrdered}
use cache_route.Proxy.Queue.Task.{ProxyTask, Prediction, injection_mode}
use cache_route.Proxy.Queue.Predict.{
  Predictors, predict_prefill_service, estimate_request_length, kv_align_tokens, predict-tokens,
}
use cache_route.Proxy.Queue.Reservation.{Reservations, reserve}
use cache_route.Proxy.Queue.Reservation.Timeline.{Follows, reserve-Follows}
use cache_route.Proxy.Queue.Reservation.Chain.{IsChain, reserve_all, reserve_all-IsChain}
use cache_route.Proxy.Queue.Release.{
  ReleasePolicy, ReleaseState, Settings, elem, skip_released, release, flush_from, flush,
  arrive_all, start,
}
use cache_route.Proxy.Queue.Release.Count.{count, up_to}
use cache_route.Proxy.Queue.Release.Conserve.{seqs, total, flush_conserves}
use cache_route.Proxy.Queue.Release.InOrder.{ready_after, ready_prefix, ready_complete}
use cache_route.Proxy.Queue.Release.Fair.{IsFair, bypasses}
use cache_route.Proxy.Queue.Release.Bypass.{flush-IsFair, arrive_all-IsFair}

abbrev predictors : Predictors ℕ
predictors = record {
  prefill = λ length. length;
  redis_pull_ms = λ gb. gb + 5;
  tpot = λ length. some 2;
}

-- Arrival `seq`, with 300 tokens of knowledge to inject as said.
abbrev task : ℕ → List ℕ → ProxyTask ℕ
task seq injection = record {
  request_id = some seq;
  prompt_len = 20;
  knowledge_len = 300;
  injection_type = some injection;
  predict_stage = codes "prefill";
  prepare_seq = seq;
  proxy_enqueue_ms = some 1000;
  prepare_self_done_ms = some 1500;
  know_prepare_ms = 0;
  reservation_seq = none;
  has_seen_first_token = false;
  released = none;
  predicted = none;
}

abbrev slots : Reservations ℕ
slots = record {
  slot = 3;
  slots = 2 ∷ 9 ∷ [];
  prefill_free_s = 4;
  next_seq = 1;
  pending = [];
  decode = [];
  cold_start = true;
}

abbrev settings : ReleasePolicy → Settings ℕ
settings policy = record {
  policy = policy;
  text_bypass_max_per_flush = 1;
  predictors = predictors;
  clock = record { now_ms = λ seq. 2000 + seq; now_s = λ seq. 2 };
}

reserve-Follows_example :
    let (t', s') = reserve predictors (task 1 (codes "text")) 2000 5 slots in
    (pr : Prediction ℕ) × Follows whole_numbers-IsOrdered predictors 5 slots s' t' pr
reserve-Follows_example =
    reserve-Follows whole_numbers-IsOrdered predictors (task 1 (codes "text")) 2000 5 slots

abbrev requests : List (ProxyTask ℕ × ℕ × ℕ)
requests = (task 1 (codes "text"), 2000, 5) ∷ (task 2 (codes "kvcache"), 2001, 6) ∷ []

reserve_all-IsChain_example :
    IsChain slots.next_seq slots.prefill_free_s (reserve_all predictors requests slots).0
reserve_all-IsChain_example = reserve_all-IsChain predictors whole_numbers-IsOrdered requests slots

-- Arrival 1 is still being prepared.
abbrev waiting : ReleaseState ℕ
waiting = record (start slots) {
  buffer =
      (3, task 3 (codes "text")) ∷ (2, task 2 (codes "kvcache")) ∷ (4, task 4 (codes "text")) ∷ [];
}

waiting-IsFair : IsFair 1 waiting
waiting-IsFair = record {
  passed = λ i p l. absurd (omega arith);
  out = λ i e. absurd (cc);
  in_turn = tt;
}

flush_conserves_example :
    let s' = flush (settings ReleasePolicy.text_bypass) waiting in
    IsDict s'.buffer
    × ((k : ℕ) → total k s' ≡ total k waiting)
    × (elem s'.next_release s'.released ≡ false)
    × (lookup s'.next_release s'.buffer ≡ none)
flush_conserves_example =
    flush_conserves (settings ReleasePolicy.text_bypass) waiting (refl, (refl, (refl, tt)))

flush-IsFair_example :
    let s' = flush (settings ReleasePolicy.text_bypass) waiting in
    IsFair s'.next_release s' × (bypasses s'.ready ≤ 0 + 1)
flush-IsFair_example =
    flush-IsFair (settings ReleasePolicy.text_bypass) waiting (refl, (refl, (refl, tt)))
      waiting-IsFair

-- 2, 3 and then 1.
abbrev arrivals : List (ProxyTask ℕ)
arrivals = task 2 (codes "text") ∷ task 3 (codes "kvcache") ∷ task 1 (codes "text") ∷ []

arrive_all-IsFair_example :
    let s = arrive_all (settings ReleasePolicy.text_bypass) arrivals (start slots) in
    IsFair s.next_release s
arrive_all-IsFair_example = arrive_all-IsFair (settings ReleasePolicy.text_bypass) arrivals slots

once : (i : ℕ) → count i (map (λ t. t.prepare_seq) arrivals) ≤ 1
once i = ground arith

ready_prefix_example :
    (k : ℕ) × (ready_after (settings ReleasePolicy.ordered) arrivals slots ≡ up_to k)
    × (count (suc k) (map (λ t. t.prepare_seq) arrivals) ≡ 0)
    × ((i : ℕ)
        → total i (arrive_all (settings ReleasePolicy.ordered) arrivals (start slots))
          ≡ count i (map (λ t. t.prepare_seq) arrivals))
ready_prefix_example = ready_prefix (settings ReleasePolicy.ordered) arrivals slots refl once

three_arrive : (i : ℕ) → count i (map (λ t. t.prepare_seq) arrivals) ≡ count i (up_to 3)
three_arrive i = ground arith

ready_complete_example : ready_after (settings ReleasePolicy.ordered) arrivals slots ≡ up_to 3
ready_complete_example =
    ready_complete (settings ReleasePolicy.ordered) 3 arrivals slots refl three_arrive

-- One bypass is allowed, and the first text task takes it.
waiting-flush : seqs (flush (settings ReleasePolicy.text_bypass) waiting) ≡ 3 ∷ []
unfolding flush flush_from skip_released release reserve text_eq lower strip
waiting-flush = refl
