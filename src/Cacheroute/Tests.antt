-- ===== src/Cacheroute/Tests.antt =====
-- The theorems on cache operations at a concrete task.
use cache_route.Common.{ℕ, ◌≡◌, ◌⊎◌, ◌↔◌, refl, true, some, List, [], ◌∷◌}
use cache_route.Common.{arith}
use cache_route.Cacheroute.Observation.{
  CacheReplicaObservation, KvRecord, UpdatedAt, from_legacy_kv_ready, RecordField, ProjectionError,
}
use cache_route.Cacheroute.Observation.Legacy.{
  IsOutOfRange, IsRefused, IsProjected, from_legacy_kv_ready_total,
}
use cache_route.Common.Text.{codes, strip}
use cache_route.Cacheroute.State.{Stamp, Result, nonempty}
use cache_route.Cacheroute.CacheOperation.{
  CacheOperationTask, CacheOperationState, CacheOperationType, RuntimeProfile,
  LmcacheGatewayProfile, is_consistent, validated, transition,
}
use cache_route.Cacheroute.CacheOperation.Transition.{IsMove, moved_to, transition-IsMove}
use cache_route.Cacheroute.CacheOperation.History.{Becomes, Continues, Becomes-Continues}

abbrev at : ℕ → Stamp
at time = record { time = time; utc = true }

abbrev new_task : CacheOperationTask
new_task = record {
  task_id = 1;
  idempotency_key = codes "key";
  operation = CacheOperationType.prefetch;
  artifact_id = 5;
  runtime_profile = RuntimeProfile.v1;
  compatibility_profile_id = codes "profile";
  gateway_profile = LmcacheGatewayProfile.mp_http_api;
  endpoint_id = some 3;
  endpoint_generation = some 1;
  state = CacheOperationState.pending;
  attempt = 0;
  created_at = at 10;
  updated_at = at 10;
}

new_task-is_consistent : is_consistent new_task ≡ true
unfolding is_consistent nonempty strip
new_task-is_consistent = refl

abbrev running_task : CacheOperationTask
running_task = moved_to CacheOperationState.running (at 12) new_task

transition-IsMove_example :
    (transition CacheOperationState.running (at 12) new_task ≡ Result.ok running_task) ↔ (
      ((CacheOperationState.running ≡ new_task.state) × (running_task ≡ new_task))
      ⊎ (IsMove CacheOperationState.running (at 12) new_task
          × (running_task ≡ moved_to CacheOperationState.running (at 12) new_task)
          × (is_consistent running_task ≡ true)))
transition-IsMove_example =
    transition-IsMove CacheOperationState.running (at 12) new_task running_task
      new_task-is_consistent

abbrev done_task : CacheOperationTask
done_task = moved_to CacheOperationState.succeeded (at 15) running_task

starts : transition CacheOperationState.running (at 12) new_task ≡ Result.ok running_task
unfolding transition validated is_consistent nonempty strip
starts = refl

succeeds : transition CacheOperationState.succeeded (at 15) running_task ≡ Result.ok done_task
unfolding transition validated is_consistent nonempty strip
succeeds = refl

abbrev requests : List CacheOperationState
requests = CacheOperationState.running ∷ CacheOperationState.succeeded ∷ []

new_task-Becomes : Becomes new_task requests done_task
new_task-Becomes =
    Becomes.moves new_task running_task done_task CacheOperationState.running (at 12) _ starts (
      Becomes.moves running_task done_task done_task CacheOperationState.succeeded (at 15) _
        succeeds (Becomes.stays done_task))

Becomes-Continues_example : Continues new_task done_task
Becomes-Continues_example =
    Becomes-Continues new_task done_task requests new_task-is_consistent new_task-Becomes

done_task-is_consistent : is_consistent done_task ≡ true
unfolding is_consistent nonempty strip
done_task-is_consistent = refl

-- The same state again is no transition.
again : transition CacheOperationState.succeeded (at 20) done_task ≡ Result.ok done_task
unfolding transition
again = refl

-- Ready, updated at 90, and projected at 100 for a minute.
abbrev ready_record : KvRecord
ready_record = record {
  kv_ready = some true;
  kv_updated_at = UpdatedAt.read 90;
  kv_rel_dir = RecordField.missing;
  kv_dumped_keys = RecordField.given 12;
}

named : nonempty (codes "legacy-unknown") ≡ true
unfolding nonempty strip
named = refl

abbrev projected_record : Result ProjectionError CacheReplicaObservation
projected_record = from_legacy_kv_ready ready_record 5 3 (codes "legacy-unknown") 60 (at 100)

from_legacy_kv_ready_total_example :
    (IsOutOfRange ready_record.kv_updated_at 100 60
      × (projected_record ≡ Result.failed ProjectionError.overflow_error))
    ⊎ (¬ IsOutOfRange ready_record.kv_updated_at 100 60
        × IsRefused ready_record
        × (projected_record ≡ Result.failed ProjectionError.validation_error))
    ⊎ (¬ IsOutOfRange ready_record.kv_updated_at 100 60
        × ¬ IsRefused ready_record
        × (o : CacheReplicaObservation) × (projected_record ≡ Result.ok o)
        × IsProjected ready_record 60 100 o)
from_legacy_kv_ready_total_example =
    from_legacy_kv_ready_total ready_record 5 3 (codes "legacy-unknown") 60 (at 100) (omega arith)
      refl named
