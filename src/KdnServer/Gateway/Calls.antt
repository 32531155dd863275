-- ===== src/KdnServer/Gateway/Calls.antt =====
-- Requests and workers' calls as they reach the gateway one after another. No handler awaits.
use cache_route.Common.{
  ℕ, ◌≡◌, ◌≢◌, refl, inl, inr, true, false, none, List, [], ◌∷◌, arith, Bool-cases,
}
use cache_route.Common.Text.{Text}
use cache_route.Cacheroute.State.{Result}
use cache_route.Cacheroute.CacheOperation.{CacheOperationType, is_auto}
use cache_route.Cacheroute.Contracts.{GatewayTargetedRequest, TokenInput, is_request, profile_code}
use cache_route.Cacheroute.Contracts.CacheService.{
  Response, ResponseType, LmcacheEndpoint, accepts, consistent_outcome, outcome_ok, endpoints_ok,
  same_profile,
}
use cache_route.KdnServer.Capabilities.{CapabilitySnapshot}
use cache_route.KdnServer.Gateway.{MockGateway, GatewayError, operation_capability}
use cache_route.KdnServer.Gateway.Handlers.{
  lookup_artifact, get_cache_observation, lookup_tokens, submit_operation,
}
use cache_route.KdnServer.Gateway.Work.{get_operation_status, cancel_operation}
use cache_route.KdnServer.Gateway.Summaries.{
  DiscoveryRequest, get_endpoints, endpoints_answer, get_tier_adapter_summary,
  get_maintenance_status, all_here,
}
use cache_route.KdnServer.Gateway.Refusals.{IsAnswered, respond_lem, guarded-keeps}
use cache_route.KdnServer.Gateway.Reads.{
  lookup_artifact-IsAnswered, get_cache_observation-IsAnswered, lookup_tokens-IsAnswered,
  get_tier_adapter_summary-IsAnswered, get_maintenance_status-IsAnswered,
}
use cache_route.KdnServer.Gateway.Serving.{IsServing}
use cache_route.KdnServer.Gateway.Writes.{get_operation_status-IsAnswered, cancel_operation_lem}
use cache_route.KdnServer.Gateway.Submission.{IsSubmittable, submit_operation_lem}

pub data Call : Type 0 where
  artifact observation status cancellation : GatewayTargetedRequest → ℕ → Call
  tokens : GatewayTargetedRequest → TokenInput → Call
  submission : GatewayTargetedRequest → CacheOperationType → ℕ → Text → ℕ → Call
  endpoints : DiscoveryRequest → Call
  tiers maintenance : GatewayTargetedRequest → Call

-- The request has passed its own validation, and a submission is of a kind that has a request and
-- can be made a task.
abbrev pub IsWellFormed : Call → Type 0
IsWellFormed (Call.artifact q a) = is_request q ≡ true
IsWellFormed (Call.observation q a) = is_request q ≡ true
IsWellFormed (Call.status q t) = is_request q ≡ true
IsWellFormed (Call.cancellation q t) = is_request q ≡ true
IsWellFormed (Call.tokens q t) = is_request q ≡ true
IsWellFormed (Call.submission q o a key t) =
    IsSubmittable q key × ((c : CapabilitySnapshot) → operation_capability c o ≢ none)
IsWellFormed (Call.endpoints d) = is_auto d.runtime_profile ≡ false
IsWellFormed (Call.tiers q) = is_request q ≡ true
IsWellFormed (Call.maintenance q) = is_request q ≡ true

all_here-endpoints_ok :
    (c : CapabilitySnapshot) (d : DiscoveryRequest) (es : List LmcacheEndpoint)
    → profile_code d.runtime_profile ≡ profile_code c.runtime_profile
    → all_here c es ≡ true
    → endpoints_ok d.runtime_profile es ≡ true
unfolding all_here endpoints_ok
all_here-endpoints_ok c d [] h e = refl
all_here-endpoints_ok c d (x ∷ es) h e = ground (arith, all_here-endpoints_ok c d es h)

endpoints_answer-accepts :
    (X : Type 0) (c : CapabilitySnapshot) (es : List LmcacheEndpoint) (d : DiscoveryRequest)
    (now : ℕ)
    → is_auto d.runtime_profile ≡ false
    → accepts ResponseType.get_lmcache_endpoints (endpoints_answer {X = X} c es d now) ≡ true
unfolding endpoints_answer accepts consistent_outcome outcome_ok
endpoints_answer-accepts X c es d now v =
    elim (Bool-cases (same_profile d.runtime_profile c.runtime_profile)) [
      | inr other ↦ rw other (ground arith)
      | inl same ↦ elim (Bool-cases (all_here c es)) [
        | inr e ↦ rw (same, e) (ground arith)
        | inl e ↦ rw (same, e) (ground (arith, all_here-endpoints_ok c d es (ground arith) e))
      ]
    ]

module _ {X : Type 0} where
  unfoldable pub ask : Call → ℕ → MockGateway X → MockGateway X × Result GatewayError (Response X)
  ask (Call.artifact q a) now s = lookup_artifact q a now s
  ask (Call.observation q a) now s = get_cache_observation q a now s
  ask (Call.status q t) now s = get_operation_status q t now s
  ask (Call.cancellation q t) now s = cancel_operation q t now s
  ask (Call.tokens q t) now s = lookup_tokens q t now s
  ask (Call.submission q o a key t) now s = submit_operation q o a key t now s
  ask (Call.endpoints d) now s = get_endpoints d now s
  ask (Call.tiers q) now s = get_tier_adapter_summary q now s
  ask (Call.maintenance q) now s = get_maintenance_status q now s

  -- When the tasks of the gateway are consistent, for its endpoint, filed with targets of their
  -- kind and not changed later than now, every well-formed request gets an answer that passes the
  -- validators of its class, no exception is raised, and the tasks stay so.
  pub ask-IsAnswered :
      (call : Call) (now : ℕ) (s : MockGateway X)
      → IsServing now s
      → IsWellFormed call
      → IsAnswered (ask call now s).1 × IsServing now (ask call now s).0
  unfolding ask lookup_artifact get_cache_observation lookup_tokens get_tier_adapter_summary
      get_maintenance_status get_operation_status get_endpoints
  ask-IsAnswered (Call.artifact q a) now s h v = (
    lookup_artifact-IsAnswered X q now v s a,
    guarded-keeps (IsServing now) _ s.capabilities.artifact_lookup q now _ s v h (λ here. h),
  )
  ask-IsAnswered (Call.observation q a) now s h v = (
    get_cache_observation-IsAnswered X q now v s a,
    guarded-keeps (IsServing now) _ s.capabilities.cache_observation q now _ s v h (λ here. h),
  )
  ask-IsAnswered (Call.status q t) now s h v = (
    get_operation_status-IsAnswered q now s v h t,
    guarded-keeps (IsServing now) _ s.capabilities.operation_status q now _ s v h (λ here. h),
  )
  ask-IsAnswered (Call.cancellation q t) now s h v = cancel_operation_lem q now s v h t
  ask-IsAnswered (Call.tokens q t) now s h v = (
    lookup_tokens-IsAnswered X q now v s t,
    guarded-keeps (IsServing now) _ s.capabilities.token_lookup q now _ s v h (λ here. h),
  )
  ask-IsAnswered (Call.submission q o a key t) now s h v =
      submit_operation_lem q o a key t now s v.0 h (v.1 s.capabilities)
  ask-IsAnswered (Call.endpoints d) now s h v = (
    (
      _,
      respond_lem ResponseType.get_lmcache_endpoints _
          (endpoints_answer-accepts X s.capabilities s.endpoints d now v),
    ),
    h,
  )
  ask-IsAnswered (Call.tiers q) now s h v = (
    get_tier_adapter_summary-IsAnswered X q now v s,
    guarded-keeps (IsServing now) _ s.capabilities.tier_capacity_usage q now _ s v h (λ here. h),
  )
  ask-IsAnswered (Call.maintenance q) now s h v = (
    get_maintenance_status-IsAnswered X q now v s,
    guarded-keeps (IsServing now) _ s.capabilities.maintenance_eviction q now _ s v h (λ here. h),
  )
