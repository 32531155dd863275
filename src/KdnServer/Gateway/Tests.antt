-- ===== src/KdnServer/Gateway/Tests.antt =====
-- The gateway at concrete requests.
use cache_route.Common.{ℕ, ◌≡◌, ◌≢◌, inl, refl, true, false, some, none, List, [], ◌∷◌}
use cache_route.Common.Text.{codes, strip}
use cache_route.Common.Table
use cache_route.Cacheroute.State.{Result, nonempty}
use cache_route.Cacheroute.CacheOperation.{CacheOperationType, RuntimeProfile}
use cache_route.Cacheroute.Contracts.{SupportState, GatewayTargetedRequest, is_request}
use cache_route.KdnServer.Capabilities.{CapabilitySnapshot, GatewayTransportKind, coherent_profile}
use cache_route.KdnServer.Gateway.{MockGateway, GatewayError}
use cache_route.KdnServer.Gateway.Handlers.{submit_operation}
use cache_route.KdnServer.Gateway.Refusals.{IsHere, IsAnswered}
use cache_route.KdnServer.Gateway.Serving.{IsServing}
use cache_route.KdnServer.Gateway.Submission.{IsSubmittable}
use cache_route.KdnServer.Gateway.Calls.{Call, ask, ask-IsAnswered}
use cache_route.KdnServer.Gateway.Once.{Event}
use cache_route.KdnServer.Gateway.Refused.{submit_operation-refused}

abbrev capabilities : RuntimeProfile → GatewayTransportKind → ℕ → CapabilitySnapshot
capabilities p kind generation = record {
  runtime_profile = p;
  transport_kinds = kind ∷ [];
  compatibility_profile_id = codes "a";
  endpoint_id = 3;
  endpoint_generation = generation;
  token_lookup = SupportState.supported;
  range_coverage = SupportState.unknown;
  object_deletion = SupportState.unsupported;
  warm_prefetch = SupportState.supported;
  operation_status = SupportState.supported;
  pin_unpin = SupportState.supported;
  tier_capacity_usage = SupportState.unknown;
  maintenance_eviction = SupportState.unknown;
  cancellation = SupportState.supported;
  artifact_lookup = SupportState.supported;
  cache_observation = SupportState.supported;
}

capabilities-coherent :
    coherent_profile (capabilities RuntimeProfile.test_mock GatewayTransportKind.mock 1) ≡ true
unfolding coherent_profile
capabilities-coherent = refl

abbrev gateway : CapabilitySnapshot → MockGateway ℕ
gateway c = record {
  capabilities = c;
  artifacts = [];
  observations = [];
  token_fixtures = λ tokens. none;
  endpoints = [];
  adapter_summary = none;
  tier_summary = none;
  maintenance_summary = none;
  tasks = [];
  logical = [];
}

abbrev mock : MockGateway ℕ
mock = gateway (capabilities RuntimeProfile.test_mock GatewayTransportKind.mock 1)

abbrev request : RuntimeProfile → ℕ → ℕ → GatewayTargetedRequest
request p generation i = record {
  runtime_profile = p;
  request_id = i;
  correlation_id = none;
  compatibility_profile_id = codes "a";
  endpoint_id = 3;
  endpoint_generation = generation;
}

abbrev to_mock : ℕ → GatewayTargetedRequest
to_mock = request RuntimeProfile.test_mock 1

to_mock-is_request : (i : ℕ) → is_request (to_mock i) ≡ true
unfolding is_request
to_mock-is_request i = refl

mock-IsServing : (now : ℕ) → IsServing now mock
mock-IsServing now = record { unique = tt; filed = λ key t e. absurd (cc) }

keyed : nonempty (codes "k") ≡ true
unfolding nonempty strip
keyed = refl

profiled : nonempty (codes "a") ≡ true
unfolding nonempty strip
profiled = refl

submittable : (i : ℕ) → IsSubmittable (to_mock i) (codes "k")
submittable i = record {
  requested = to_mock-is_request i;
  keyed = keyed;
  profiled = profiled;
  known_generation = refl;
}

here : (i : ℕ) → IsHere mock.capabilities (to_mock i)
here i = record { profile = refl; compatibility = refl; endpoint = refl; generation = refl }

prefetch-has_request : (c : CapabilitySnapshot) → some c.warm_prefetch ≢ none
prefetch-has_request c = λ e. cc

ask-IsAnswered_example :
    IsAnswered
      (ask (Call.submission (to_mock 1) CacheOperationType.prefetch 5 (codes "k") 9) 20 mock).1
    × IsServing 20
        (ask (Call.submission (to_mock 1) CacheOperationType.prefetch 5 (codes "k") 9) 20 mock).0
ask-IsAnswered_example =
    ask-IsAnswered (Call.submission (to_mock 1) CacheOperationType.prefetch 5 (codes "k") 9) 20 mock
      (mock-IsServing 20) (submittable 1, prefetch-has_request)

-- The operation is started, its end is asked for, and it is cancelled.
abbrev events : List (Event × ℕ)
events =
    (Event.started 9, 21)
    ∷ (Event.asked (Call.status (to_mock 2) 9), 22)
    ∷ (Event.asked (Call.cancellation (to_mock 3) 9), 23)
    ∷ []

blank : nonempty (codes " ") ≡ false
unfolding nonempty strip
blank = refl

submit_operation-refused_example :
    submit_operation (to_mock 1) CacheOperationType.prefetch 5 (codes " ") 9 20 mock
    ≡ (mock, Result.failed GatewayError.task_refused)
submit_operation-refused_example =
    submit_operation-refused (to_mock 1) CacheOperationType.prefetch 5 (codes " ") 9 20 mock
      (here 1) refl refl (inl blank)
