-- ===== src/Cacheroute/Contracts.antt =====
-- src/cacheroute/contracts/v1/common.py and errors.py: the vocabulary of the requests and answers.
-- The contract's version is always the supported one, and the time of a message is in UTC.
pub mod CacheService
use cache_route.Common.{
  ℕ, Bool, true, false, not, ◌&&◌, ◌||◌, Option, none, some, List, [], ◌∷◌, ◌==◌, leb, is_some,
  length,
}
use cache_route.Common.Text.{Text}
use cache_route.Cacheroute.CacheOperation.{RuntimeProfile, is_auto}
use cache_route.Cacheroute.Observation.{is_legacy}

pub data SupportState : Type 0 where
  supported unsupported unknown : SupportState

-- `is SupportState.SUPPORTED`
abbrev pub is_supported : SupportState → Bool
is_supported SupportState.supported = true
is_supported s = false

pub data OutcomeCode : Type 0 where
  success unsupported incompatible stale partial failed cancelled text_fallback
        idempotency_conflict :
      OutcomeCode

pub record ContractErrorDetail : Type 0 where
  pub code : OutcomeCode
  pub message : Text
  pub retryable : Bool
  pub fallback_eligible : Bool

-- Tells the outcomes apart.
abbrev pub outcome_code : OutcomeCode → ℕ
outcome_code OutcomeCode.success = 0
outcome_code OutcomeCode.unsupported = 1
outcome_code OutcomeCode.incompatible = 2
outcome_code OutcomeCode.stale = 3
outcome_code OutcomeCode.partial = 4
outcome_code OutcomeCode.failed = 5
outcome_code OutcomeCode.cancelled = 6
outcome_code OutcomeCode.text_fallback = 7
outcome_code OutcomeCode.idempotency_conflict = 8

abbrev pub profile_code : RuntimeProfile → ℕ
profile_code RuntimeProfile.v1 = 0
profile_code RuntimeProfile.legacy = 1
profile_code RuntimeProfile.test_mock = 2
profile_code RuntimeProfile.auto = 3

-- A request to one endpoint: `GatewayTargetedRequest`.
pub record GatewayTargetedRequest : Type 0 where
  pub runtime_profile : RuntimeProfile
  pub request_id : ℕ
  pub correlation_id : Option ℕ
  pub compatibility_profile_id : Text
  pub endpoint_id : ℕ
  pub endpoint_generation : ℕ

-- The generation 0 is only for Legacy.
abbrev pub generation_ok : RuntimeProfile → ℕ → Bool
generation_ok p generation = is_legacy p || not (generation == 0)

-- The validators of `GatewayTargetedRequest`.
unfoldable pub is_request : GatewayTargetedRequest → Bool
is_request q =
    not (is_auto q.runtime_profile)
    && leb 1 (length q.compatibility_profile_id)
    && generation_ok q.runtime_profile q.endpoint_generation

-- `TokenInput`: inline tokens, which are not empty, or a reference.
pub data TokenInput : Type 0 where
  token_ids : List ℕ → TokenInput
  token_reference : ℕ → TokenInput
