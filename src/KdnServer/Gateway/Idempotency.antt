-- ===== src/KdnServer/Gateway/Idempotency.antt =====
-- Two requests with one idempotency key.
use cache_route.Common.{ℕ, ◌≡◌, ◌≤◌, refl, none, some, List, [], ◌∷◌, arith}
use cache_route.Common.Text.{Text, text_eq_iff}
use cache_route.Common.Table
use cache_route.Common.Table.{insert-IsTable}
use cache_route.Cacheroute.CacheOperation.{CacheOperationType}
use cache_route.Cacheroute.Contracts.{GatewayTargetedRequest}
use cache_route.KdnServer.Capabilities.{CapabilitySnapshot}
use cache_route.KdnServer.Gateway.{MockGateway, operation_capability, guarded, gate, negotiate}
use cache_route.KdnServer.Gateway.Handlers.{submit_operation, new_task, logical_of, submit_key}
use cache_route.Common.Table.{Table, IsTable, lookup-insert_ne}
use cache_route.KdnServer.Gateway.Calls.{IsWellFormed}
use cache_route.KdnServer.Gateway.Once.{Event}
use cache_route.KdnServer.Gateway.Refusals.{IsHere}
use cache_route.Cacheroute.Contracts.{SupportState}

-- The clock does not go back, and requests are well formed.
abbrev pub IsTimely : ℕ → List (Event × ℕ) → Type 0
IsTimely now [] = Unit
IsTimely now ((Event.asked call, t) ∷ events) = (now ≤ t) × IsWellFormed call × IsTimely t events
IsTimely now ((e, t) ∷ events) = (now ≤ t) × IsTimely t events

-- The time of the last event.
abbrev pub until : ℕ → List (Event × ℕ) → ℕ
until now [] = now
until now ((e, t) ∷ events) = until t events

module _ {X : Type 0} where
  gate-here :
      (q : GatewayTargetedRequest) (now : ℕ) (c : CapabilitySnapshot)
      → IsHere c q
      → gate {X = X} c SupportState.supported q now ≡ none
  unfolding gate negotiate
  gate-here q now c here =
      ground
        (arith, here.profile, text_eq_iff q.compatibility_profile_id c.compatibility_profile_id)

  -- A request that the guard lets through.
  pub submit_operation-supported :
      (q : GatewayTargetedRequest) (o : CacheOperationType) (artifact : ℕ) (key : Text)
      (task_id now : ℕ) (s : MockGateway X)
      → IsHere s.capabilities q
      → operation_capability s.capabilities o ≡ some SupportState.supported
      → submit_operation q o artifact key task_id now s
        ≡ submit_key
            (Table.lookup key s.tasks)
            key
            (new_task q o artifact key task_id now)
            (logical_of q o artifact)
            q
            now
            s
  unfolding submit_operation guarded gate negotiate
  submit_operation-supported q o artifact key task_id now s here supported =
      rw (supported, submit_operation, gate-here q now s.capabilities here) refl
