-- ===== src/KdnServer/Capabilities.antt =====
-- kdn_server/gateway/capabilities.py and profiles.py: what a gateway's endpoint says that it can do.
-- The names of adapters and tiers and the kinds of support that no handler reads are left out.
use cache_route.Common.{ℕ, Bool, true, false, not, ◌&&◌, ◌||◌, List, [], ◌∷◌, ◌==◌, leb, length}
use cache_route.Common.Text.{Text}
use cache_route.Cacheroute.CacheOperation.{RuntimeProfile, is_auto}
use cache_route.Cacheroute.Contracts.{SupportState, generation_ok}

pub data GatewayTransportKind : Type 0 where
  mp_http_api mp_coordinator mp_sdk mp_metrics_events mp_l2_plugin legacy_redis mock
        unknown_future :
      GatewayTransportKind

pub record CapabilitySnapshot : Type 0 where
  pub runtime_profile : RuntimeProfile
  pub transport_kinds : List GatewayTransportKind
  pub compatibility_profile_id : Text
  pub endpoint_id : ℕ
  pub endpoint_generation : ℕ
  pub token_lookup : SupportState
  pub range_coverage : SupportState
  pub object_deletion : SupportState
  pub warm_prefetch : SupportState
  pub operation_status : SupportState
  pub pin_unpin : SupportState
  pub tier_capacity_usage : SupportState
  pub maintenance_eviction : SupportState
  pub cancellation : SupportState
  pub artifact_lookup : SupportState
  pub cache_observation : SupportState

-- Tells the kinds apart.
abbrev pub kind_code : GatewayTransportKind → ℕ
kind_code GatewayTransportKind.mp_http_api = 0
kind_code GatewayTransportKind.mp_coordinator = 1
kind_code GatewayTransportKind.mp_sdk = 2
kind_code GatewayTransportKind.mp_metrics_events = 3
kind_code GatewayTransportKind.mp_l2_plugin = 4
kind_code GatewayTransportKind.legacy_redis = 5
kind_code GatewayTransportKind.mock = 6
kind_code GatewayTransportKind.unknown_future = 7

-- The kinds that a runtime allows; the MP ones for v1.
abbrev pub allowed : RuntimeProfile → GatewayTransportKind → Bool
allowed RuntimeProfile.v1 k = not (kind_code k == 5) && not (kind_code k == 6)
allowed RuntimeProfile.legacy k = kind_code k == 5
allowed p k = kind_code k == 6

all_allowed : RuntimeProfile → List GatewayTransportKind → Bool
all_allowed p [] = true
all_allowed p (k ∷ ks) = allowed p k && all_allowed p ks

bound : GatewayTransportKind → List GatewayTransportKind → Bool
bound k [] = false
bound k (j ∷ js) = (kind_code k == kind_code j) || bound k js

unique : List GatewayTransportKind → Bool
unfolding bound
unique [] = true
unique (k ∷ ks) = not (bound k ks) && unique ks

-- The validators of `runtime_profile` and of the nested profile's name, and `coherent_profile`.
unfoldable pub coherent_profile : CapabilitySnapshot → Bool
unfolding all_allowed unique
coherent_profile c =
    not (is_auto c.runtime_profile)
    && leb 1 (length c.compatibility_profile_id)
    && leb 1 (length c.transport_kinds)
    && unique c.transport_kinds
    && all_allowed c.runtime_profile c.transport_kinds
    && generation_ok c.runtime_profile c.endpoint_generation

-- `supports_adapter`
unfoldable pub supports_adapter : CapabilitySnapshot → GatewayTransportKind → Bool
unfolding bound
supports_adapter c k = bound k c.transport_kinds
