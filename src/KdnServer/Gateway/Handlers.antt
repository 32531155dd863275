-- ===== src/KdnServer/Gateway/Handlers.antt =====
-- The handlers of `MockGateway` in kdn_server/gateway/mock.py.
use cache_route.Common.{
  ℕ, Bool, true, false, not, ◌||◌, Option, none, some, [], ◌==◌, if◌then◌else◌,
}
use cache_route.Common.Text.{Text, codes, text_eq}
use cache_route.Common.Dict
use cache_route.Common.Table
use cache_route.Cacheroute.State.{Result}
use cache_route.Cacheroute.CacheOperation.{
  CacheOperationTask, CacheOperationState, CacheOperationType, LmcacheGatewayProfile, validated,
}
use cache_route.Cacheroute.Observation.{CacheReplicaObservation, is_fresh, utc_at}
use cache_route.Cacheroute.Contracts.{
  SupportState, is_supported, OutcomeCode, GatewayTargetedRequest, TokenInput,
}
use cache_route.Cacheroute.Contracts.CacheService.{
  CacheArtifact, TokenCoverage, Response, ResponseType, same_profile,
}
use cache_route.KdnServer.Gateway.{
  MockGateway, GatewayError, Logical, operation_capability, same_logical, envelope, refusal,
  respond, gate, guarded,
}

abbrev pub incompatible : CacheReplicaObservation → ℕ → GatewayTargetedRequest → Bool
incompatible o artifact q =
    not (o.artifact_id == artifact)
    || not (same_profile o.runtime_profile q.runtime_profile)
    || not (text_eq o.compatibility_profile_id q.compatibility_profile_id)
    || not (o.endpoint_id == q.endpoint_id)

-- Ranges are cut off if the endpoint does not report them.
abbrev pub reported : SupportState → TokenCoverage → TokenCoverage
reported support c = if is_supported support then c else record c { covered_ranges = [] }

abbrev pub logical_of : GatewayTargetedRequest → CacheOperationType → ℕ → Logical
logical_of q operation artifact = record {
  operation = operation;
  artifact_id = artifact;
  endpoint_id = q.endpoint_id;
  endpoint_generation = q.endpoint_generation;
  runtime_profile = q.runtime_profile;
  compatibility_profile_id = q.compatibility_profile_id;
}

-- The new operation that a request asks for.
abbrev pub new_task :
    GatewayTargetedRequest → CacheOperationType → ℕ → Text → ℕ → ℕ → CacheOperationTask
new_task q operation artifact key task_id now = record {
  task_id = task_id;
  idempotency_key = key;
  operation = operation;
  artifact_id = artifact;
  runtime_profile = q.runtime_profile;
  compatibility_profile_id = q.compatibility_profile_id;
  gateway_profile = LmcacheGatewayProfile.mock;
  endpoint_id = some q.endpoint_id;
  endpoint_generation = some q.endpoint_generation;
  state = CacheOperationState.pending;
  attempt = 0;
  created_at = utc_at now;
  updated_at = utc_at now;
}

module _ {X : Type 0} where
  unfoldable pub artifact_answer :
      Option (CacheArtifact X) → GatewayTargetedRequest → ℕ → Response X
  artifact_answer none q now =
      refusal q now OutcomeCode.stale (codes "artifact not observed") false false
  artifact_answer (some a) q now =
      if not (same_profile a.runtime_profile q.runtime_profile)
        || not (text_eq a.compatibility_profile_id q.compatibility_profile_id)
      then refusal q now OutcomeCode.incompatible (codes "artifact provenance mismatch") false false
      else record (envelope q now OutcomeCode.success) { artifact = some a }

  unfoldable pub lookup_artifact :
      GatewayTargetedRequest
      → ℕ
      → ℕ
      → MockGateway X
      → MockGateway X × Result GatewayError (Response X)
  unfolding artifact_answer gate guarded respond
  lookup_artifact q artifact now s =
      guarded ResponseType.lookup_artifact
        (gate s.capabilities s.capabilities.artifact_lookup q now)
        (
          s,
          respond ResponseType.lookup_artifact
              (artifact_answer (Dict.lookup artifact s.artifacts) q now),
        )
        s

  unfoldable pub observation_answer :
      Option CacheReplicaObservation → ℕ → GatewayTargetedRequest → ℕ → Response X
  observation_answer none artifact q now =
      refusal q now OutcomeCode.stale (codes "observation is absent or stale") false false
  observation_answer (some o) artifact q now =
      if incompatible o artifact q
      then refusal q now OutcomeCode.incompatible (codes "observation provenance mismatch") false
          false
      else if not (o.endpoint_generation == q.endpoint_generation)
      then refusal q now OutcomeCode.stale (codes "observation generation mismatch") false false
      else if not (is_fresh o now)
      then record (refusal q now OutcomeCode.stale (codes "observation is stale") false false) {
        observation = some o;
      }
      else record (envelope q now OutcomeCode.success) { observation = some o }

  unfoldable pub get_cache_observation :
      GatewayTargetedRequest
      → ℕ
      → ℕ
      → MockGateway X
      → MockGateway X × Result GatewayError (Response X)
  unfolding observation_answer gate guarded respond
  get_cache_observation q artifact now s =
      guarded ResponseType.get_cache_observation
        (gate s.capabilities s.capabilities.cache_observation q now)
        (
          s,
          respond ResponseType.get_cache_observation
              (observation_answer (Dict.lookup artifact s.observations) artifact q now),
        )
        s

  unfoldable pub tokens_answer :
      Option TokenCoverage → SupportState → GatewayTargetedRequest → ℕ → Response X
  tokens_answer none ranges q now =
      refusal q now OutcomeCode.text_fallback (codes "tokens are not cached") false true
  tokens_answer (some c) ranges q now = record (envelope q now OutcomeCode.success) {
    token_coverage = some (reported ranges c);
  }

  unfoldable pub lookup_tokens :
      GatewayTargetedRequest
      → TokenInput
      → ℕ
      → MockGateway X
      → MockGateway X × Result GatewayError (Response X)
  unfolding tokens_answer gate guarded respond
  lookup_tokens q tokens now s =
      guarded ResponseType.lookup_tokens (gate s.capabilities s.capabilities.token_lookup q now)
        (
          s,
          respond ResponseType.lookup_tokens
              (tokens_answer (s.token_fixtures tokens) s.capabilities.range_coverage q now),
        )
        s

  abbrev pub operation_answer : GatewayTargetedRequest → ℕ → CacheOperationTask → Response X
  operation_answer q now t = record (envelope q now OutcomeCode.success) { operation = some t }

  -- The same target gets the same operation.
  abbrev pub again_answer :
      GatewayTargetedRequest → ℕ → CacheOperationTask → Logical → Logical → Response X
  again_answer q now t stored l =
      if same_logical stored l
      then operation_answer q now t
      else refusal q now OutcomeCode.idempotency_conflict
          (codes "idempotency key was used for a different logical request") false false

  -- A key that is known.
  unfoldable pub submit_again :
      CacheOperationTask
      → Option Logical
      → Logical
      → GatewayTargetedRequest
      → ℕ
      → Result GatewayError (Response X)
  unfolding respond
  submit_again t none l q now = Result.failed GatewayError.key_error
  submit_again t (some stored) l q now =
      respond (ResponseType.intent l.operation) (again_answer q now t stored l)

  -- A key that is not: the operation is made and stored.
  unfoldable pub submit_new :
      Text
      → CacheOperationTask
      → Logical
      → GatewayTargetedRequest
      → ℕ
      → MockGateway X
      → MockGateway X × Result GatewayError (Response X)
  unfolding respond
  submit_new key t l q now s = elim (validated t) [
    | Result.failed e ↦ (s, Result.failed GatewayError.task_refused)
    | Result.ok t' ↦ (
      record s { tasks = Table.insert key t' s.tasks; logical = Table.insert key l s.logical },
      respond (ResponseType.intent l.operation) (operation_answer q now t'),
    )
  ]

  unfoldable pub submit_key :
      Option CacheOperationTask
      → Text
      → CacheOperationTask
      → Logical
      → GatewayTargetedRequest
      → ℕ
      → MockGateway X
      → MockGateway X × Result GatewayError (Response X)
  unfolding submit_again submit_new
  submit_key none key t l q now s = submit_new key t l q now s
  submit_key (some known) key t l q now s =
      (s, submit_again known (Table.lookup key s.logical) l q now)

  -- `submit_operation`, of the request of that kind for that artifact under that key.
  unfoldable pub submit_operation :
      GatewayTargetedRequest
      → CacheOperationType
      → ℕ
      → Text
      → ℕ
      → ℕ
      → MockGateway X
      → MockGateway X × Result GatewayError (Response X)
  unfolding submit_key gate guarded
  submit_operation q operation artifact key task_id now s =
      elim (operation_capability s.capabilities operation) [
        | none ↦ (s, Result.failed GatewayError.unknown_intent)
        | some support ↦
            guarded (ResponseType.intent operation) (gate s.capabilities support q now)
              (submit_key (Table.lookup key s.tasks) key
                (new_task q operation artifact key task_id now) (logical_of q operation artifact) q
                now s)
              s
      ]
