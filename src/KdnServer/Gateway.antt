-- ===== src/KdnServer/Gateway.antt =====
-- kdn_server/gateway/base.py and mock.py: `MockGateway`, the gateway that the contracts are tested
-- with. A handler gives the gateway's next state and its answer, or the exception that it raises.
-- The time of an answer and of a change of state is `now`, and a new operation's identifier an
-- argument. A request has passed its own validation (`is_request`).
pub mod Handlers
pub mod Work
pub mod Summaries
pub mod Refusals
pub mod Reads
pub mod Serving
pub mod Writes
pub mod Submission
pub mod Calls
pub mod Workers
pub mod Once
pub mod Idempotency
pub mod Refused
mod Tests
use cache_route.Common.{
  ℕ, Bool, true, false, not, ◌&&◌, ◌||◌, Option, none, some, List, [], ◌∷◌, ◌==◌, leb, length,
  is_some, if◌then◌else◌,
}
use cache_route.Common.Text.{Text, codes, text_eq}
use cache_route.Common.Dict.{Dict}
use cache_route.Common.Dict
use cache_route.Common.Table.{Table}
use cache_route.Common.Table
use cache_route.Cacheroute.State.{Stamp, Result, TransitionError}
use cache_route.Cacheroute.CacheOperation.{
  RuntimeProfile, CacheOperationTask, CacheOperationState, CacheOperationType,
  LmcacheGatewayProfile, terminal, transition, validated, code,
}
use cache_route.Cacheroute.Observation.{CacheReplicaObservation, is_fresh, utc_at}
use cache_route.Cacheroute.Contracts.{
  SupportState, is_supported, OutcomeCode, ContractErrorDetail, GatewayTargetedRequest, TokenInput,
}
use cache_route.Cacheroute.Contracts.CacheService.{
  CacheArtifact, LmcacheEndpoint, Summary, TokenCoverage, Response, ResponseType, accepts,
  same_profile, is_outcome, type_code,
}
use cache_route.KdnServer.Capabilities.{CapabilitySnapshot}

-- What a task is for: `logical`.
pub record Logical : Type 0 where
  pub operation : CacheOperationType
  pub artifact_id : ℕ
  pub endpoint_id : ℕ
  pub endpoint_generation : ℕ
  pub runtime_profile : RuntimeProfile
  pub compatibility_profile_id : Text

pub record MockGateway (X : Type 0) : Type 0 where
  pub capabilities : CapabilitySnapshot
  pub artifacts : Dict (CacheArtifact X)
  pub observations : Dict CacheReplicaObservation
  pub token_fixtures : TokenInput → Option TokenCoverage
  pub endpoints : List LmcacheEndpoint
  pub adapter_summary : Option (Summary X)
  pub tier_summary : Option (Summary X)
  pub maintenance_summary : Option (Summary X)
  pub tasks : Table CacheOperationTask
  pub logical : Table Logical

pub data GatewayError : Type 0 where
  response_refused task_refused key_error unknown_intent : GatewayError
  not_moved : TransitionError CacheOperationState → GatewayError

-- `_OPERATION_CAPABILITY`; other kinds have no request.
abbrev pub operation_capability : CapabilitySnapshot → CacheOperationType → Option SupportState
operation_capability c CacheOperationType.prefetch = some c.warm_prefetch
operation_capability c CacheOperationType.rebuild = some c.warm_prefetch
operation_capability c CacheOperationType.pin = some c.pin_unpin
operation_capability c CacheOperationType.unpin = some c.pin_unpin
operation_capability c CacheOperationType.clear = some c.object_deletion
operation_capability c o = none

abbrev pub same_logical : Logical → Logical → Bool
same_logical a b =
    (type_code a.operation == type_code b.operation)
    && (a.artifact_id == b.artifact_id)
    && (a.endpoint_id == b.endpoint_id)
    && (a.endpoint_generation == b.endpoint_generation)
    && same_profile a.runtime_profile b.runtime_profile
    && text_eq a.compatibility_profile_id b.compatibility_profile_id

-- `_find`: the first task of that identifier, with its key.
abbrev pub find : ℕ → Table CacheOperationTask → Option (Text × CacheOperationTask)
find task_id [] = none
find task_id ((key, t) ∷ tasks) = if t.task_id == task_id then some (key, t) else find task_id tasks

module _ {X : Type 0} where
  -- An answer's values before a payload or an error is put in.
  abbrev pub envelope : GatewayTargetedRequest → ℕ → OutcomeCode → Response X
  envelope q now outcome = record {
    runtime_profile = q.runtime_profile;
    request_id = q.request_id;
    correlation_id = q.correlation_id;
    timestamp = now;
    compatibility_profile_id = some q.compatibility_profile_id;
    endpoint_id = some q.endpoint_id;
    endpoint_generation = some q.endpoint_generation;
    outcome = outcome;
    artifact = none;
    observation = none;
    operation = none;
    endpoints = none;
    token_coverage = none;
    adapter_summary = none;
    tier_summary = none;
    maintenance_summary = none;
    error = none;
  }

  abbrev pub refusal : GatewayTargetedRequest → ℕ → OutcomeCode → Text → Bool → Bool → Response X
  refusal q now outcome message retryable fallback = record (envelope q now outcome) {
    error = some (record {
      code = outcome;
      message = message;
      retryable = retryable;
      fallback_eligible = fallback;
    });
  }

  -- `_response`: the class's validators run on the values.
  unfoldable pub respond : ResponseType → Response X → Result GatewayError (Response X)
  respond type r =
      if accepts type r then Result.ok r else Result.failed GatewayError.response_refused

  abbrev pub wrong_target : GatewayTargetedRequest → ℕ → Response X
  wrong_target q now =
      refusal q now OutcomeCode.incompatible
        (codes "request target is incompatible with gateway capabilities") false false

  abbrev pub old_generation : GatewayTargetedRequest → ℕ → Response X
  old_generation q now =
      refusal q now OutcomeCode.stale (codes "request endpoint generation is stale") true false

  abbrev pub not_supported : GatewayTargetedRequest → ℕ → Response X
  not_supported q now =
      refusal q now OutcomeCode.unsupported (codes "gateway capability is unsupported or unknown")
        false false

  -- `_negotiate`
  unfoldable pub negotiate : CapabilitySnapshot → GatewayTargetedRequest → ℕ → Option (Response X)
  negotiate c q now =
      if not (same_profile q.runtime_profile c.runtime_profile)
        || not (text_eq q.compatibility_profile_id c.compatibility_profile_id)
        || not (q.endpoint_id == c.endpoint_id)
      then some (wrong_target q now)
      else if not (q.endpoint_generation == c.endpoint_generation)
      then some (old_generation q now)
      else none

  -- `_gate`
  unfoldable pub gate :
      CapabilitySnapshot → SupportState → GatewayTargetedRequest → ℕ → Option (Response X)
  unfolding negotiate
  gate c support q now = elim (negotiate c q now) [
    | some r ↦ some r
    | none ↦ if not (is_supported support) then some (not_supported q now) else none
  ]

  -- The guard's answer is built as a plain response, and then as one of the handler's class.
  unfoldable pub remade : ResponseType → Response X → Result GatewayError (Response X)
  unfolding respond
  remade type r = elim (respond ResponseType.cache_service r) [
    | Result.failed e ↦ Result.failed e
    | Result.ok r' ↦ respond type r'
  ]

  -- The guard's answer if it has one, or else the handler's own.
  unfoldable pub guarded :
      ResponseType
      → Option (Response X)
      → MockGateway X × Result GatewayError (Response X)
      → MockGateway X
      → MockGateway X × Result GatewayError (Response X)
  unfolding remade
  guarded type none answer s = answer
  guarded type (some r) answer s = (s, remade type r)
