-- ===== src/Cacheroute/Contracts/CacheService.antt =====
-- The answers of src/cacheroute/contracts/v1/cache_service.py and what their validators accept. Of
-- an artifact, an endpoint and a summary only what the validators compare is kept, and their other
-- content is of a parameter type.
use cache_route.Common.{
  ℕ, Bool, true, false, not, ◌&&◌, ◌||◌, Option, none, some, List, [], ◌∷◌, ◌==◌, leb, is_some,
  length,
}
use cache_route.Common.Text.{Text, text_eq}
use cache_route.Cacheroute.CacheOperation.{
  RuntimeProfile, CacheOperationTask, CacheOperationState, CacheOperationType, is_auto, terminal,
  code,
}
use cache_route.Cacheroute.Observation.{CacheReplicaObservation, is_fresh}
use cache_route.Cacheroute.Contracts.{
  OutcomeCode, ContractErrorDetail, outcome_code, profile_code, generation_ok,
}

pub record CacheArtifact (X : Type 0) : Type 0 where
  pub artifact_id : ℕ
  pub runtime_profile : RuntimeProfile
  pub compatibility_profile_id : Text
  pub content : X

pub record LmcacheEndpoint : Type 0 where
  pub endpoint_id : ℕ
  pub runtime_profile : RuntimeProfile
  pub compatibility_profile_id : Text
  pub generation : ℕ

-- `SummaryBase` with the content of one of its subclasses.
pub record Summary (X : Type 0) : Type 0 where
  pub runtime_profile : RuntimeProfile
  pub compatibility_profile_id : Text
  pub endpoint_id : ℕ
  pub endpoint_generation : ℕ
  pub content : X

pub record TokenCoverage : Type 0 where
  pub whole_request_hit : Bool
  pub covered_ranges : List (ℕ × ℕ)
  pub total_tokens : ℕ

-- `CacheServiceResponse`
pub record Response (X : Type 0) : Type 0 where
  pub runtime_profile : RuntimeProfile
  pub request_id : ℕ
  pub correlation_id : Option ℕ
  pub timestamp : ℕ
  pub compatibility_profile_id : Option Text
  pub endpoint_id : Option ℕ
  pub endpoint_generation : Option ℕ
  pub outcome : OutcomeCode
  pub artifact : Option (CacheArtifact X)
  pub observation : Option CacheReplicaObservation
  pub operation : Option CacheOperationTask
  pub endpoints : Option (List LmcacheEndpoint)
  pub token_coverage : Option TokenCoverage
  pub adapter_summary : Option (Summary X)
  pub tier_summary : Option (Summary X)
  pub maintenance_summary : Option (Summary X)
  pub error : Option ContractErrorDetail

-- The classes of responses; `intent` is one for each kind of operation.
pub data ResponseType : Type 0 where
  cache_service get_cache_observation lookup_artifact lookup_tokens get_operation_status
        cancel_operation get_lmcache_endpoints get_tier_and_adapter_summary get_maintenance_status :
      ResponseType
  intent : CacheOperationType → ResponseType

abbrev pub type_code : CacheOperationType → ℕ
type_code CacheOperationType.lookup = 0
type_code CacheOperationType.prefetch = 1
type_code CacheOperationType.pin = 2
type_code CacheOperationType.unpin = 3
type_code CacheOperationType.clear = 4
type_code CacheOperationType.rebuild = 5
type_code CacheOperationType.observe = 6

abbrev pub same_profile : RuntimeProfile → RuntimeProfile → Bool
same_profile a b = profile_code a == profile_code b

abbrev pub same_text? : Option Text → Text → Bool
same_text? none t = false
same_text? (some s) t = text_eq s t

abbrev pub same_number? : Option ℕ → ℕ → Bool
same_number? none n = false
same_number? (some m) n = m == n

abbrev pub same_numbers? : Option ℕ → Option ℕ → Bool
same_numbers? none none = true
same_numbers? (some m) (some n) = m == n
same_numbers? m n = false

-- A test of an optional value that `None` passes.
abbrev pub if_some : {A : Type 0} → Option A → (A → Bool) → Bool
if_some none p = true
if_some (some a) p = p a

abbrev pub is_outcome : OutcomeCode → OutcomeCode → Bool
is_outcome a b = outcome_code a == outcome_code b

abbrev pub in_state : CacheOperationState → CacheOperationTask → Bool
in_state s t = code s == code t.state

abbrev pub has_code : OutcomeCode → Option ContractErrorDetail → Bool
has_code o none = false
has_code o (some e) = is_outcome e.code o

unfoldable pub endpoints_ok : RuntimeProfile → List LmcacheEndpoint → Bool
endpoints_ok p [] = true
endpoints_ok p (e ∷ es) = same_profile e.runtime_profile p && endpoints_ok p es

module _ {X : Type 0} where
  abbrev pub has_target : Response X → Bool
  has_target r =
      is_some r.compatibility_profile_id && is_some r.endpoint_id && is_some r.endpoint_generation

  abbrev pub targeted_payload : Response X → Bool
  targeted_payload r =
      is_some r.artifact
      || is_some r.observation
      || is_some r.operation
      || is_some r.token_coverage
      || is_some r.adapter_summary
      || is_some r.tier_summary
      || is_some r.maintenance_summary

  -- The outcome fits the error and the payload.
  unfoldable pub outcome_ok : Response X → Bool
  outcome_ok r =
      (if_some r.error (λ e. not (is_outcome r.outcome OutcomeCode.success)))
      && (is_outcome r.outcome OutcomeCode.success || has_code r.outcome r.error)
      && (not (is_outcome r.outcome OutcomeCode.cancelled)
          || (is_some r.operation && if_some r.operation (in_state CacheOperationState.cancelled)))
      && (not (is_outcome r.outcome OutcomeCode.stale)
          || if_some r.observation (λ o. not (is_fresh o r.timestamp)))
      && (not (is_outcome r.outcome OutcomeCode.text_fallback)
          || if_some r.error (λ e. e.fallback_eligible))

  abbrev pub summary_ok : Response X → Summary X → Bool
  summary_ok r s =
      same_profile s.runtime_profile r.runtime_profile
      && same_text? r.compatibility_profile_id s.compatibility_profile_id
      && same_number? r.endpoint_id s.endpoint_id
      && same_number? r.endpoint_generation s.endpoint_generation

  abbrev pub artifact_ok : Response X → CacheArtifact X → Bool
  artifact_ok r a =
      not (is_some r.compatibility_profile_id)
      || (same_profile a.runtime_profile r.runtime_profile
          && same_text? r.compatibility_profile_id a.compatibility_profile_id)

  abbrev pub observation_ok : Response X → CacheReplicaObservation → Bool
  observation_ok r o =
      same_number? r.endpoint_generation o.endpoint_generation
      && (not (is_some r.compatibility_profile_id)
          || (same_profile o.runtime_profile r.runtime_profile
              && same_text? r.compatibility_profile_id o.compatibility_profile_id
              && same_number? r.endpoint_id o.endpoint_id))

  abbrev pub operation_ok : Response X → CacheOperationTask → Bool
  operation_ok r t =
      not (is_some r.compatibility_profile_id)
      || (same_profile t.runtime_profile r.runtime_profile
          && same_text? r.compatibility_profile_id t.compatibility_profile_id
          && same_numbers? r.endpoint_id t.endpoint_id
          && same_numbers? r.endpoint_generation t.endpoint_generation)

  -- The validators of the fields, and `consistent_outcome`.
  unfoldable pub consistent_outcome : Response X → Bool
  unfolding endpoints_ok
  consistent_outcome r =
      not (is_auto r.runtime_profile)
      && (not (targeted_payload r) || has_target r)
      && if_some r.endpoint_generation (generation_ok r.runtime_profile)
      && outcome_ok r
      && if_some r.adapter_summary (summary_ok r)
      && if_some r.tier_summary (summary_ok r)
      && if_some r.maintenance_summary (summary_ok r)
      && if_some r.observation (observation_ok r)
      && if_some r.artifact (artifact_ok r)
      && if_some r.operation (operation_ok r)
      && if_some r.endpoints (endpoints_ok r.runtime_profile)

  -- `GatewayTargetedResponse` makes the target's fields mandatory.
  abbrev pub is_targeted : Response X → Bool
  is_targeted r = has_target r && if_some r.compatibility_profile_id (λ t. leb 1 (length t))

  abbrev pub success_payload : ResponseType → Response X → Bool
  success_payload ResponseType.cache_service r = true
  success_payload ResponseType.get_cache_observation r =
      is_targeted r
      && (not (is_outcome r.outcome OutcomeCode.success)
          || (is_some r.observation && if_some r.observation (λ o. is_fresh o r.timestamp)))
  success_payload ResponseType.lookup_artifact r =
      is_targeted r && (not (is_outcome r.outcome OutcomeCode.success) || is_some r.artifact)
  success_payload ResponseType.lookup_tokens r =
      is_targeted r && (not (is_outcome r.outcome OutcomeCode.success) || is_some r.token_coverage)
  success_payload ResponseType.get_operation_status r =
      is_targeted r && (not (is_outcome r.outcome OutcomeCode.success) || is_some r.operation)
  success_payload ResponseType.cancel_operation r =
      is_targeted r
      && (not (is_outcome r.outcome OutcomeCode.success)
          || (is_some r.operation && if_some r.operation (λ t. terminal t.state)))
  success_payload ResponseType.get_lmcache_endpoints r =
      not (is_outcome r.outcome OutcomeCode.success) || is_some r.endpoints
  success_payload ResponseType.get_tier_and_adapter_summary r =
      is_targeted r
      && (not (is_outcome r.outcome OutcomeCode.success)
          || (is_some r.adapter_summary && is_some r.tier_summary))
  success_payload ResponseType.get_maintenance_status r =
      is_targeted r
      && (not (is_outcome r.outcome OutcomeCode.success) || is_some r.maintenance_summary)
  success_payload (ResponseType.intent operation) r =
      is_targeted r
      && (not (is_outcome r.outcome OutcomeCode.success)
          || (is_some r.operation
              && if_some r.operation (λ t. type_code t.operation == type_code operation)))

  -- The class's constructor accepts the values.
  unfoldable pub accepts : ResponseType → Response X → Bool
  unfolding consistent_outcome outcome_ok
  accepts type r = consistent_outcome r && success_payload type r
