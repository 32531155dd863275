-- ===== src/Cacheroute/CacheOperation.antt =====
-- `CacheOperationTask` of src/cacheroute/cache/models.py. Identifiers are numbers, so their patterns
-- hold. An instance is frozen: a transition makes a new one, through all of the validation.
pub mod Transition
pub mod History
use cache_route.Common.{
  ℕ, ◌+◌, Bool, true, false, not, ◌&&◌, ◌||◌, Option, none, some, List, [], ◌∷◌, ◌==◌, ltb, leb,
  if◌then◌else◌, is_some, or_default,
}
use cache_route.Common.Text.{Text}
use cache_route.Cacheroute.State.{Stamp, TransitionError, Result, nonempty}

pub data CacheOperationType : Type 0 where
  lookup prefetch pin unpin clear rebuild observe : CacheOperationType

pub data CacheOperationState : Type 0 where
  pending running retry_wait succeeded failed cancelled : CacheOperationState

pub data RuntimeProfile : Type 0 where
  v1 legacy test_mock auto : RuntimeProfile

pub data LmcacheGatewayProfile : Type 0 where
  mp_http_api mp_coordinator mp_sdk mp_metrics_events legacy_gateway mock unknown_future :
      LmcacheGatewayProfile

pub record CacheOperationTask : Type 0 where
  pub task_id : ℕ
  pub idempotency_key : Text
  pub operation : CacheOperationType
  pub artifact_id : ℕ
  pub runtime_profile : RuntimeProfile
  pub compatibility_profile_id : Text
  pub gateway_profile : LmcacheGatewayProfile
  pub endpoint_id : Option ℕ
  pub endpoint_generation : Option ℕ
  pub state : CacheOperationState
  pub attempt : ℕ
  pub created_at : Stamp
  pub updated_at : Stamp

-- Tells the states apart.
abbrev pub code : CacheOperationState → ℕ
code CacheOperationState.pending = 0
code CacheOperationState.running = 1
code CacheOperationState.retry_wait = 2
code CacheOperationState.succeeded = 3
code CacheOperationState.failed = 4
code CacheOperationState.cancelled = 5

abbrev pub terminal : CacheOperationState → Bool
terminal CacheOperationState.succeeded = true
terminal CacheOperationState.failed = true
terminal CacheOperationState.cancelled = true
terminal s = false

-- `_TRANSITIONS`
abbrev pub transitions : CacheOperationState → List CacheOperationState
transitions CacheOperationState.pending =
    CacheOperationState.running ∷ CacheOperationState.cancelled ∷ []
transitions CacheOperationState.running =
    CacheOperationState.succeeded ∷ CacheOperationState.retry_wait ∷ CacheOperationState.failed
    ∷ CacheOperationState.cancelled ∷ []
transitions CacheOperationState.retry_wait =
    CacheOperationState.running ∷ CacheOperationState.failed ∷ CacheOperationState.cancelled ∷ []
transitions s = []

-- `requested in allowed`
abbrev pub among : CacheOperationState → List CacheOperationState → Bool
among s [] = false
among s (x ∷ xs) = (code s == code x) || among s xs

abbrev pub is_write : CacheOperationType → Bool
is_write CacheOperationType.lookup = false
is_write CacheOperationType.observe = false
is_write o = true

abbrev pub is_v1 : RuntimeProfile → Bool
is_v1 RuntimeProfile.v1 = true
is_v1 r = false

abbrev pub is_auto : RuntimeProfile → Bool
is_auto RuntimeProfile.auto = true
is_auto r = false

abbrev pub is_legacy_gateway : LmcacheGatewayProfile → Bool
is_legacy_gateway LmcacheGatewayProfile.legacy_gateway = true
is_legacy_gateway g = false

abbrev pub both_or_neither : Option ℕ → Option ℕ → Bool
both_or_neither none none = true
both_or_neither (some a) (some b) = true
both_or_neither a b = false

-- The validators of the fields, and `consistency`.
unfoldable pub is_consistent : CacheOperationTask → Bool
is_consistent t =
    not (is_auto t.runtime_profile)
    && leb 1 (or_default t.endpoint_generation 1)
    && t.created_at.utc
    && t.updated_at.utc
    && nonempty t.idempotency_key
    && nonempty t.compatibility_profile_id
    && not (ltb t.updated_at.time t.created_at.time)
    && not (is_v1 t.runtime_profile && is_write t.operation && is_legacy_gateway t.gateway_profile)
    && both_or_neither t.endpoint_id t.endpoint_generation

-- `model_validate`
unfoldable pub validated :
    CacheOperationTask → Result (TransitionError CacheOperationState) CacheOperationTask
validated t =
    if is_consistent t then Result.ok t else Result.failed TransitionError.validation_error

abbrev pub attempts : CacheOperationState → ℕ → ℕ
attempts CacheOperationState.running n = n + 1
attempts s n = n

-- `stamp` is the argument `at`, or else what the clock reads.
unfoldable pub transition :
    CacheOperationState
    → Stamp
    → CacheOperationTask
    → Result (TransitionError CacheOperationState) CacheOperationTask
unfolding validated
transition requested stamp t =
    if code requested == code t.state
    then Result.ok t
    else if not (among requested (transitions t.state))
    then Result.failed
        (TransitionError.invalid_state_transition t.state requested (transitions t.state))
    else if not stamp.utc
    then Result.failed TransitionError.not_utc
    else if ltb stamp.time t.updated_at.time
    then Result.failed TransitionError.moves_backwards
    else validated
        (record t { state = requested; attempt = attempts requested t.attempt; updated_at = stamp })
