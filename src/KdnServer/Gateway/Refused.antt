-- ===== src/KdnServer/Gateway/Refused.antt =====
-- Requests that pass their own validation and yet cannot be made an operation.
use cache_route.Common.{ℕ, ◌≡◌, ◌⊎◌, refl, false, some, none, arith, ◌∙◌}
use cache_route.Common.Text.{Text}
use cache_route.Common.Table
use cache_route.Cacheroute.State.{Result, nonempty}
use cache_route.Cacheroute.CacheOperation.{CacheOperationType, is_consistent, validated}
use cache_route.Cacheroute.Contracts.{SupportState, GatewayTargetedRequest}
use cache_route.KdnServer.Gateway.{MockGateway, GatewayError, operation_capability}
use cache_route.KdnServer.Gateway.Handlers.{submit_operation, submit_key, submit_new, new_task}
use cache_route.KdnServer.Gateway.Refusals.{IsHere}
use cache_route.KdnServer.Gateway.Idempotency.{submit_operation-supported}

new_task-is_consistent :
    (q : GatewayTargetedRequest) (o : CacheOperationType) (artifact : ℕ) (key : Text)
    (task_id now : ℕ)
    → (nonempty key ≡ false) ⊎ (q.endpoint_generation ≡ 0)
    → is_consistent (new_task q o artifact key task_id now) ≡ false
unfolding is_consistent
new_task-is_consistent q o artifact key task_id now h = ground arith

-- A request for an operation whose key is blank, or of generation 0 as a Legacy request may be,
-- gets no answer though the endpoint supports the operation and the key is free: the making of the
-- operation is refused and raises an exception. Nothing is changed.
pub submit_operation-refused :
    {X : Type 0} (q : GatewayTargetedRequest) (o : CacheOperationType) (artifact : ℕ) (key : Text)
    (task_id now : ℕ) (s : MockGateway X)
    → IsHere s.capabilities q
    → operation_capability s.capabilities o ≡ some SupportState.supported
    → Table.lookup key s.tasks ≡ none
    → (nonempty key ≡ false) ⊎ (q.endpoint_generation ≡ 0)
    → submit_operation q o artifact key task_id now s ≡ (s, Result.failed GatewayError.task_refused)
unfolding submit_key submit_new validated
submit_operation-refused q o artifact key task_id now s here supported free bad =
    submit_operation-supported q o artifact key task_id now s here supported
    ∙ rw
        (
          free,
          submit_key,
          submit_new,
          validated,
          new_task-is_consistent q o artifact key task_id now bad,
        )
        refl
