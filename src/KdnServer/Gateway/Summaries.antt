-- ===== src/KdnServer/Gateway/Summaries.antt =====
-- The handlers of `MockGateway` that answer from its fixtures of endpoints and summaries.
use cache_route.Common.{
  ℕ, Bool, true, false, not, ◌&&◌, ◌||◌, Option, none, some, List, [], ◌∷◌, ◌==◌, if◌then◌else◌,
}
use cache_route.Common.Text.{codes, text_eq}
use cache_route.Cacheroute.State.{Result}
use cache_route.Cacheroute.CacheOperation.{RuntimeProfile}
use cache_route.Cacheroute.Contracts.{OutcomeCode, GatewayTargetedRequest}
use cache_route.Cacheroute.Contracts.CacheService.{
  LmcacheEndpoint, Summary, Response, ResponseType, same_profile,
}
use cache_route.KdnServer.Capabilities.{CapabilitySnapshot}
use cache_route.KdnServer.Gateway.{
  MockGateway, GatewayError, envelope, refusal, respond, gate, guarded,
}

-- `GetLMCacheEndpointsRequest`, which names no endpoint.
pub record DiscoveryRequest : Type 0 where
  pub runtime_profile : RuntimeProfile
  pub request_id : ℕ
  pub correlation_id : Option ℕ

abbrev pub is_here : CapabilitySnapshot → LmcacheEndpoint → Bool
is_here c e =
    same_profile e.runtime_profile c.runtime_profile
    && text_eq e.compatibility_profile_id c.compatibility_profile_id
    && (e.endpoint_id == c.endpoint_id)
    && (e.generation == c.endpoint_generation)

unfoldable pub all_here : CapabilitySnapshot → List LmcacheEndpoint → Bool
all_here c [] = true
all_here c (e ∷ es) = is_here c e && all_here c es

module _ {X : Type 0} where
  abbrev pub discovered : DiscoveryRequest → ℕ → Option (List LmcacheEndpoint) → Response X
  discovered d now endpoints = record {
    runtime_profile = d.runtime_profile;
    request_id = d.request_id;
    correlation_id = d.correlation_id;
    timestamp = now;
    compatibility_profile_id = none;
    endpoint_id = none;
    endpoint_generation = none;
    outcome = OutcomeCode.success;
    artifact = none;
    observation = none;
    operation = none;
    endpoints = endpoints;
    token_coverage = none;
    adapter_summary = none;
    tier_summary = none;
    maintenance_summary = none;
    error = none;
  }

  abbrev pub not_discovered : DiscoveryRequest → ℕ → List ℕ → Response X
  not_discovered d now message = record (discovered d now none) {
    outcome = OutcomeCode.incompatible;
    error = some (record {
      code = OutcomeCode.incompatible;
      message = message;
      retryable = false;
      fallback_eligible = false;
    });
  }

  -- With `_discovery_negotiate`.
  unfoldable pub endpoints_answer :
      CapabilitySnapshot → List LmcacheEndpoint → DiscoveryRequest → ℕ → Response X
  unfolding all_here
  endpoints_answer c es d now =
      if not (same_profile d.runtime_profile c.runtime_profile)
      then not_discovered d now (codes "discovery runtime profile is incompatible")
      else if all_here c es
      then discovered d now (some es)
      else not_discovered d now (codes "endpoint fixture provenance mismatch")

  unfoldable pub get_endpoints :
      DiscoveryRequest → ℕ → MockGateway X → MockGateway X × Result GatewayError (Response X)
  unfolding endpoints_answer respond
  get_endpoints d now s = (
    s,
    respond ResponseType.get_lmcache_endpoints (endpoints_answer s.capabilities s.endpoints d now),
  )

  -- `_summary_matches`
  abbrev pub summary_matches : GatewayTargetedRequest → Summary X → Bool
  summary_matches q m =
      same_profile m.runtime_profile q.runtime_profile
      && text_eq m.compatibility_profile_id q.compatibility_profile_id
      && (m.endpoint_id == q.endpoint_id)
      && (m.endpoint_generation == q.endpoint_generation)

  unfoldable pub tier_answer :
      Option (Summary X) → Option (Summary X) → GatewayTargetedRequest → ℕ → Response X
  tier_answer (some a) (some t) q now =
      if not (summary_matches q a) || not (summary_matches q t)
      then refusal q now OutcomeCode.incompatible
          (codes "tier or adapter summary provenance mismatch") false false
      else record (envelope q now OutcomeCode.success) {
        adapter_summary = some a;
        tier_summary = some t;
      }
  tier_answer a t q now =
      refusal q now OutcomeCode.stale (codes "tier or adapter summary fixture is absent") false
        false

  unfoldable pub get_tier_adapter_summary :
      GatewayTargetedRequest → ℕ → MockGateway X → MockGateway X × Result GatewayError (Response X)
  unfolding tier_answer gate guarded respond
  get_tier_adapter_summary q now s =
      guarded ResponseType.get_tier_and_adapter_summary
        (gate s.capabilities s.capabilities.tier_capacity_usage q now)
        (
          s,
          respond ResponseType.get_tier_and_adapter_summary
              (tier_answer s.adapter_summary s.tier_summary q now),
        )
        s

  unfoldable pub maintenance_answer : Option (Summary X) → GatewayTargetedRequest → ℕ → Response X
  maintenance_answer none q now =
      refusal q now OutcomeCode.stale (codes "maintenance summary fixture is absent") false false
  maintenance_answer (some m) q now =
      if not (summary_matches q m)
      then refusal q now OutcomeCode.incompatible (codes "maintenance summary provenance mismatch")
          false false
      else record (envelope q now OutcomeCode.success) { maintenance_summary = some m }

  unfoldable pub get_maintenance_status :
      GatewayTargetedRequest → ℕ → MockGateway X → MockGateway X × Result GatewayError (Response X)
  unfolding maintenance_answer gate guarded respond
  get_maintenance_status q now s =
      guarded ResponseType.get_maintenance_status
        (gate s.capabilities s.capabilities.maintenance_eviction q now)
        (
          s,
          respond ResponseType.get_maintenance_status
              (maintenance_answer s.maintenance_summary q now),
        )
        s
