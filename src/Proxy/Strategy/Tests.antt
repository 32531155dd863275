-- ===== src/Proxy/Strategy/Tests.antt =====
-- The strategies' theorems at concrete candidates.
use cache_route.Common.{
  ℕ, ◌+◌, ◌%◌, ◌≡◌, Option, none, some, List, [], ◌∷◌, ◌++◌, map, length, take, drop, Member, arith,
}
use cache_route.Common.Text.{codes}
use cache_route.Common.Floats.Naturals.{whole_numbers, whole_numbers-IsOrdered}
use cache_route.Proxy.Pool.{InstanceInfo, empty_resource}
use cache_route.Proxy.Strategy.RoundRobin.Rotation.{picks, picks_round}
use cache_route.Proxy.Strategy.LeastLoad.{
  LeastLoad, QueueItem, compute_score, select, default_weights,
}
use cache_route.Proxy.Strategy.LeastLoad.Least.{IsLeast, select-IsLeast}

abbrev candidates : List ℕ
candidates = 10 ∷ 20 ∷ 30 ∷ []

-- From the second of three candidates on: 20, 30, 10.
picks_round_example :
    picks (length candidates) candidates (record { idx = 4 })
    ≡ map some (drop (4 % length candidates) candidates ++ take (4 % length candidates) candidates)
picks_round_example = picks_round candidates (record { idx = 4 }) (omega arith)

abbrev instance' : ℕ → Option ℕ → InstanceInfo ℕ ℕ
instance' i inflight = record {
  instance_id = i;
  host = codes "localhost";
  port = 8000 + i;
  endpoints = [];
  tags = [];
  weight = 1;
  meta = [];
  capabilities = none;
  capability_fingerprint = none;
  load = record { inflight = inflight; qps_1m = none; gpu_util = none };
  resource = empty_resource;
  registered_at = 0;
  last_seen_at = 0;
}

-- Of three instances the second is unknown, and the third has the deeper queue.
abbrev three : List (InstanceInfo ℕ ℕ)
three = instance' 1 (some 2) ∷ instance' 2 none ∷ instance' 3 (some 2) ∷ []

abbrev item : QueueItem ℕ
item = record {
  active_prepare = some 5;
  active_ready = none;
  prepare_queue_depth = none;
  ready_queue_depth = none;
  pending_prefill_count = none;
  active_decode_count = none;
  predicted_total_backlog_ms = none;
}

abbrev strategy : LeastLoad ℕ
strategy = record { rr = record { idx = 7 }; weights = default_weights }

select-IsLeast_example :
    (it : InstanceInfo ℕ ℕ) × ((select three (some ((3, item) ∷ [])) strategy).0 ≡ some it)
    × Member it three
    × IsLeast whole_numbers-IsOrdered
        (λ i. (compute_score strategy.weights (some ((3, item) ∷ [])) i).total)
        it
        three
select-IsLeast_example =
    select-IsLeast whole_numbers-IsOrdered three (some ((3, item) ∷ [])) strategy (λ e. cc)
