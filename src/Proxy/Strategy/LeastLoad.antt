-- ===== src/Proxy/Strategy/LeastLoad.antt =====
-- proxy/strategy/least_load.py: the instance with the lowest known weighted load, with round robin
-- among equals and as the fallback when nothing is known of any.
pub mod Least
use cache_route.Common.{
  ℕ, ◌≡◌, Bool, true, false, not, ◌&&◌, Option, none, some, List, [], ◌∷◌, ◌++◌, if◌then◌else◌, map,
  keep,
}
use cache_route.Common.Dict.{Dict, lookup}
use cache_route.Common.Floats.{Floats, sum, min?}
use cache_route.Proxy.Pool.{InstanceInfo}
use cache_route.Proxy.Strategy.RoundRobin.{RoundRobin}
use cache_route.Proxy.Strategy.RoundRobin
use mathlib.Core.Option

-- The keys of the score's components.
pub data Metric : Type 0 where
  inflight active_prepare active_ready prepare_queue_depth ready_queue_depth : Metric
  pending_prefill_count active_decode_count predicted_total_backlog_ms qps_1m : Metric

pub record LeastLoadWeights (R : Type 0) : Type 0 where
  pub active_prepare : R
  pub active_ready : R
  pub prepare_queue_depth : R
  pub ready_queue_depth : R
  pub pending_prefill_count : R
  pub active_decode_count : R
  pub predicted_total_backlog_ms : R
  pub qps_1m : R

-- An entry of the hint's `queue_depths["per_instance"]`: what `float()` makes of each value, `none`
-- where it is missing or no number.
pub record QueueItem (R : Type 0) : Type 0 where
  pub active_prepare : Option R
  pub active_ready : Option R
  pub prepare_queue_depth : Option R
  pub ready_queue_depth : Option R
  pub pending_prefill_count : Option R
  pub active_decode_count : Option R
  pub predicted_total_backlog_ms : Option R

-- A hint that is missing or is no such dict is `none`.
abbrev pub Hint : Type 0 → Type 0
Hint R = Option (Dict (QueueItem R))

pub record LeastLoad (R : Type 0) : Type 0 where
  pub rr : RoundRobin
  pub weights : LeastLoadWeights R

pub record Score (R : Type 0) : Type 0 where
  pub total : Option R
  pub components : List (Metric × R)
  pub weighted_components : List (Metric × R)

module _ {R : Type 0} where
  -- `if value is not None: components[key] = value`
  abbrev pub add_component : Metric → Option R → List (Metric × R) → List (Metric × R)
  add_component key none rest = rest
  add_component key (some value) rest = (key, value) ∷ rest

  queue_components : Option (QueueItem R) → List (Metric × R) → List (Metric × R)
  queue_components none rest = rest
  queue_components (some q) rest = add_component Metric.active_prepare q.active_prepare (
      add_component Metric.active_ready q.active_ready (
        add_component Metric.prepare_queue_depth q.prepare_queue_depth (
          add_component Metric.ready_queue_depth q.ready_queue_depth (
            add_component Metric.pending_prefill_count q.pending_prefill_count (
              add_component Metric.active_decode_count q.active_decode_count (
                add_component Metric.predicted_total_backlog_ms q.predicted_total_backlog_ms
                  rest))))))

  -- `_queue_info`
  queue_info : {C : Type 0} → InstanceInfo R C → Hint R → Option (QueueItem R)
  queue_info it none = none
  queue_info it (some per_instance) = lookup it.instance_id per_instance

module _ {R : Type 0} ⦃f : Floats R⦄ where
  -- The class's defaults.
  abbrev pub default_weights : LeastLoadWeights R
  default_weights = record {
    active_prepare = f.of_ℕ 1;
    active_ready = f.of_ℕ 1;
    prepare_queue_depth = f.div (f.of_ℕ 1) (f.of_ℕ 4);
    ready_queue_depth = f.div (f.of_ℕ 1) (f.of_ℕ 4);
    pending_prefill_count = f.of_ℕ 1;
    active_decode_count = f.div (f.of_ℕ 1) (f.of_ℕ 2);
    predicted_total_backlog_ms = f.div (f.of_ℕ 1) (f.of_ℕ 1000);
    qps_1m = f.of_ℕ 0;
  }

  -- `a == b`
  abbrev pub float_eq : R → R → Bool
  float_eq a b = f.le a b && f.le b a

  -- `weights_dict`
  weight : LeastLoadWeights R → Metric → R
  weight w Metric.inflight = f.of_ℕ 1
  weight w Metric.active_prepare = w.active_prepare
  weight w Metric.active_ready = w.active_ready
  weight w Metric.prepare_queue_depth = w.prepare_queue_depth
  weight w Metric.ready_queue_depth = w.ready_queue_depth
  weight w Metric.pending_prefill_count = w.pending_prefill_count
  weight w Metric.active_decode_count = w.active_decode_count
  weight w Metric.predicted_total_backlog_ms = w.predicted_total_backlog_ms
  weight w Metric.qps_1m = w.qps_1m

  -- `_weighted_components`: a weight of zero takes the component out.
  weighted : LeastLoadWeights R → List (Metric × R) → List (Metric × R)
  weighted w [] = []
  weighted w ((key, value) ∷ rest) =
      let others = weighted w rest in
      if float_eq (weight w key) (f.of_ℕ 0)
      then others
      else (key, f.mul value (weight w key)) ∷ others

  -- `sum(weighted_components.values()) if weighted_components else None`
  total_of : List (Metric × R) → Option R
  total_of [] = none
  total_of (c ∷ cs) = some (sum (map (λ e. e.1) (c ∷ cs)))

  module _ {C : Type 0} where
    unfoldable pub compute_score : LeastLoadWeights R → Hint R → InstanceInfo R C → Score R
    unfolding queue_components queue_info weight weighted total_of
    compute_score w hint it =
        let components =
          add_component Metric.inflight (Option.map f.of_ℕ it.load.inflight) (
            queue_components (queue_info it hint)
              (add_component Metric.qps_1m it.load.qps_1m [])) in
        let parts = weighted w components in
        record { total = total_of parts; components = components; weighted_components = parts }

    -- `[(it, score) for ... if score["total"] is not None]`, with the totals.
    known_scores :
        (InstanceInfo R C → Option R) → List (InstanceInfo R C) → List (InstanceInfo R C × R)
    known_scores score [] = []
    known_scores score (it ∷ rest) = elim (score it) [
      | none ↦ known_scores score rest
      | some total ↦ (it, total) ∷ known_scores score rest
    ]

    choose :
        List (InstanceInfo R C)
        → List (InstanceInfo R C × R)
        → Option R
        → RoundRobin
        → Option (InstanceInfo R C) × RoundRobin
    choose instances known none rr = RoundRobin.select instances rr
    choose instances known (some min_score) rr =
        RoundRobin.select (map (λ e. e.0) (keep (λ e. float_eq e.1 min_score) known)) rr

    -- `none` is the RuntimeError of an empty list.
    unfoldable pub select :
        List (InstanceInfo R C) → Hint R → LeastLoad R → Option (InstanceInfo R C) × LeastLoad R
    unfolding choose known_scores
    select instances hint s =
        let score = λ (it : InstanceInfo R C). (compute_score s.weights hint it).total in
        let known = known_scores score instances in
        let (chosen, rr') = choose instances known (min? (map (λ e. e.1) known)) s.rr in
        (chosen, record s { rr = rr' })
