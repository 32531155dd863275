-- ===== src/KdnServer/Gateway/Work.antt =====
-- The handlers of `MockGateway` on an operation that is there, those that only read summaries, and
-- sequences of them all.
use cache_route.Common.{ℕ, Bool, true, false, Option, none, some, ◌==◌, if◌then◌else◌}
use cache_route.Common.Text.{Text, codes}
use cache_route.Common.Table
use cache_route.Cacheroute.State.{Result, TransitionError}
use cache_route.Cacheroute.CacheOperation.{
  CacheOperationTask, CacheOperationState, terminal, transition, code,
}
use cache_route.Cacheroute.Observation.{utc_at}
use cache_route.Cacheroute.Contracts.{OutcomeCode, GatewayTargetedRequest}
use cache_route.Cacheroute.Contracts.CacheService.{Response, ResponseType}
use cache_route.KdnServer.Gateway.{MockGateway, GatewayError, find, refusal, respond, gate, guarded}
use cache_route.KdnServer.Gateway.Handlers.{operation_answer}

abbrev pub is_pending : CacheOperationState → Bool
is_pending s = code s == code CacheOperationState.pending

abbrev pub ending : Bool → CacheOperationState
ending true = CacheOperationState.failed
ending false = CacheOperationState.succeeded

-- First running, if it has not begun.
unfoldable pub begun :
    ℕ → CacheOperationTask → Result (TransitionError CacheOperationState) CacheOperationTask
begun now t =
    if is_pending t.state
    then transition CacheOperationState.running (utc_at now) t
    else Result.ok t

module _ {X : Type 0} where
  abbrev pub not_found : GatewayTargetedRequest → ℕ → Response X
  not_found q now = refusal q now OutcomeCode.stale (codes "operation was not found") false false

  unfoldable pub status_answer :
      Option (Text × CacheOperationTask) → GatewayTargetedRequest → ℕ → Response X
  status_answer none q now = not_found q now
  status_answer (some (key, t)) q now = operation_answer q now t

  unfoldable pub get_operation_status :
      GatewayTargetedRequest
      → ℕ
      → ℕ
      → MockGateway X
      → MockGateway X × Result GatewayError (Response X)
  unfolding status_answer gate guarded respond
  get_operation_status q task_id now s =
      guarded ResponseType.get_operation_status
        (gate s.capabilities s.capabilities.operation_status q now)
        (s, respond ResponseType.get_operation_status (status_answer (find task_id s.tasks) q now))
        s

  -- The task's change of state, kept under its key.
  abbrev pub stored :
      Text
      → Result (TransitionError CacheOperationState) CacheOperationTask
      → MockGateway X
      → MockGateway X × Result GatewayError CacheOperationTask
  stored key (Result.failed e) s = (s, Result.failed (GatewayError.not_moved e))
  stored key (Result.ok t) s = (record s { tasks = Table.insert key t s.tasks }, Result.ok t)

  unfoldable pub cancel_found :
      Option (Text × CacheOperationTask)
      → GatewayTargetedRequest
      → ℕ
      → MockGateway X
      → MockGateway X × Result GatewayError (Response X)
  unfolding respond
  cancel_found none q now s = (s, respond ResponseType.cancel_operation (not_found q now))
  cancel_found (some (key, t)) q now s =
      if terminal t.state
      then (s, respond ResponseType.cancel_operation (operation_answer q now t))
      else elim (transition CacheOperationState.cancelled (utc_at now) t) [
        | Result.failed e ↦ (s, Result.failed (GatewayError.not_moved e))
        | Result.ok t' ↦ (
          record s { tasks = Table.insert key t' s.tasks },
          respond ResponseType.cancel_operation
              (record (refusal q now OutcomeCode.cancelled (codes "operation cancelled") false
                false) { operation = some t' }),
        )
      ]

  unfoldable pub cancel_operation :
      GatewayTargetedRequest
      → ℕ
      → ℕ
      → MockGateway X
      → MockGateway X × Result GatewayError (Response X)
  unfolding cancel_found gate guarded
  cancel_operation q task_id now s =
      guarded ResponseType.cancel_operation (gate s.capabilities s.capabilities.cancellation q now)
        (cancel_found (find task_id s.tasks) q now s) s

  -- `start` and `complete` stand for the workers: they move an operation on.
  unfoldable pub start :
      ℕ → ℕ → MockGateway X → MockGateway X × Result GatewayError CacheOperationTask
  start task_id now s = elim (find task_id s.tasks) [
    | none ↦ (s, Result.failed GatewayError.key_error)
    | some (key, t) ↦ stored key (transition CacheOperationState.running (utc_at now) t) s
  ]

  unfoldable pub complete :
      ℕ → Bool → ℕ → MockGateway X → MockGateway X × Result GatewayError CacheOperationTask
  unfolding begun
  complete task_id failed now s = elim (find task_id s.tasks) [
    | none ↦ (s, Result.failed GatewayError.key_error)
    | some (key, t) ↦ elim (begun now t) [
      | Result.failed e ↦ (s, Result.failed (GatewayError.not_moved e))
      | Result.ok t' ↦ stored key (transition (ending failed) (utc_at now) t') s
    ]
  ]
