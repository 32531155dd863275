-- ===== src/KdnServer/Gateway/Writes.antt =====
-- The gateway's handlers on operations: they answer, and the operations stay well filed.
use cache_route.Common.{
  ℕ, ◌≡◌, ◌≢◌, ◌≤◌, refl, inl, inr, ap, true, false, some, arith, Bool-cases, Option-cases,
}
use cache_route.Common.Text.{Text, codes, text_eq_iff}
use cache_route.Common.Table.{Table}
use cache_route.Cacheroute.State.{Result}
use cache_route.Cacheroute.CacheOperation.{
  CacheOperationTask, CacheOperationType, CacheOperationState, is_consistent, transition, terminal,
  code, among, transitions,
}
use cache_route.Cacheroute.CacheOperation.Transition.{
  transition-IsMove, moved_to, moved_to-is_consistent,
}
use cache_route.Cacheroute.Observation.{utc_at}
use cache_route.Cacheroute.Contracts.{OutcomeCode, GatewayTargetedRequest, is_request}
use cache_route.Cacheroute.Contracts.CacheService.{
  ResponseType, accepts, consistent_outcome, outcome_ok, type_code,
}
use cache_route.KdnServer.Capabilities.{CapabilitySnapshot}
use cache_route.KdnServer.Gateway.{MockGateway, Logical, find, refusal}
use cache_route.KdnServer.Gateway.Handlers.{operation_answer}
use cache_route.KdnServer.Gateway.Work.{
  status_answer, get_operation_status, cancel_found, cancel_operation,
}
use cache_route.KdnServer.Gateway.Refusals.{
  IsHere, IsAnswered, respond_lem, guarded-IsAnswered, guarded-keeps,
}
use cache_route.KdnServer.Gateway.Reads.{accepts-stale}
use cache_route.KdnServer.Gateway.Serving.{
  IsFiled, IsServing, find-lookup, transition-IsFiled, put-IsServing,
}

module _ (X : Type 0) (c : CapabilitySnapshot) (targets : Table Logical) (now : ℕ)
    (q : GatewayTargetedRequest) (key : Text) (t : CacheOperationTask) (v : is_request q ≡ true)
    (here : IsHere c q) (f : IsFiled c targets now key t) where
  -- An answer with an operation of this endpoint passes the envelope's checks.
  consistent-operation : consistent_outcome (operation_answer {X = X} q now t) ≡ true
  unfolding consistent_outcome outcome_ok is_request
  consistent-operation =
      ground (arith, text_eq_iff q.compatibility_profile_id t.compatibility_profile_id)

  accepts-status :
      accepts ResponseType.get_operation_status (operation_answer {X = X} q now t) ≡ true
  unfolding accepts is_request
  accepts-status = ground (arith, consistent-operation)

  accepts-terminal :
      terminal t.state ≡ true
      → accepts ResponseType.cancel_operation (operation_answer {X = X} q now t) ≡ true
  unfolding accepts is_request
  accepts-terminal done = ground (arith, consistent-operation)

  pub accepts-intent :
      (o : CacheOperationType)
      → type_code t.operation ≡ type_code o
      → accepts (ResponseType.intent o) (operation_answer {X = X} q now t) ≡ true
  unfolding accepts is_request
  accepts-intent o kind = ground (arith, consistent-operation)

  accepts-cancelled :
      t.state ≡ CacheOperationState.cancelled
      → accepts ResponseType.cancel_operation
          (record (refusal {X = X} q now OutcomeCode.cancelled
            (codes "operation cancelled")
            false
            false) { operation = some t })
        ≡ true
  unfolding accepts consistent_outcome outcome_ok is_request
  accepts-cancelled e =
      ground (arith, ap code e, text_eq_iff q.compatibility_profile_id t.compatibility_profile_id)

cancel_allowed :
    (s : CacheOperationState)
    → terminal s ≡ false
    → (CacheOperationState.cancelled ≢ s)
      × (among CacheOperationState.cancelled (transitions s) ≡ true)
cancel_allowed CacheOperationState.pending h = (λ e. cc, refl)
cancel_allowed CacheOperationState.running h = (λ e. cc, refl)
cancel_allowed CacheOperationState.retry_wait h = (λ e. cc, refl)
cancel_allowed CacheOperationState.succeeded h = absurd (cc)
cancel_allowed CacheOperationState.failed h = absurd (cc)
cancel_allowed CacheOperationState.cancelled h = absurd (cc)

-- An operation that has not ended can be cancelled.
cancelled_later :
    (now : ℕ) (t : CacheOperationTask)
    → is_consistent t ≡ true
    → t.updated_at.time ≤ now
    → terminal t.state ≡ false
    → transition CacheOperationState.cancelled (utc_at now) t
      ≡ Result.ok (moved_to CacheOperationState.cancelled (utc_at now) t)
cancelled_later now t consistent past open' =
    let (other, allowed) = cancel_allowed t.state open' in
    (transition-IsMove CacheOperationState.cancelled (utc_at now) t
        (moved_to CacheOperationState.cancelled (utc_at now) t) consistent).1
      (inr (
        (other, allowed, refl, past),
        refl,
        moved_to-is_consistent CacheOperationState.cancelled (utc_at now) t consistent refl past,
      ))

module _ {X : Type 0} (q : GatewayTargetedRequest) (now : ℕ) (s : MockGateway X)
    (v : is_request q ≡ true) (h : IsServing now s) where
  find-IsFiled :
      (task_id : ℕ) (key : Text) (t : CacheOperationTask)
      → find task_id s.tasks ≡ some (key, t)
      → IsFiled s.capabilities s.logical now key t
  find-IsFiled task_id key t e = h.filed key t (find-lookup task_id s.tasks key t h.unique e).0

  status_answer-accepts :
      (task_id : ℕ)
      → IsHere s.capabilities q
      → accepts ResponseType.get_operation_status
          (status_answer {X = X} (find task_id s.tasks) q now)
        ≡ true
  unfolding status_answer
  status_answer-accepts task_id here = elim (Option-cases (find task_id s.tasks)) [
    | inl e ↦ rw e (accepts-stale X q now v ResponseType.get_operation_status _)
    | inr ((key, t), e) ↦ rw e (
        accepts-status X s.capabilities s.logical now q key t v here (find-IsFiled task_id key t e))
  ]

  pub get_operation_status-IsAnswered :
      (task_id : ℕ) → IsAnswered (get_operation_status q task_id now s).1
  unfolding get_operation_status
  get_operation_status-IsAnswered task_id =
      guarded-IsAnswered _ s.capabilities.operation_status q now _ s v (λ here.
        (_, respond_lem ResponseType.get_operation_status _ (status_answer-accepts task_id here)))

  -- A cancellation answers, and leaves the operations well filed.
  cancel_found_lem :
      (task_id : ℕ)
      → IsHere s.capabilities q
      → IsAnswered (cancel_found (find task_id s.tasks) q now s).1
        × IsServing now (cancel_found (find task_id s.tasks) q now s).0
  unfolding cancel_found
  cancel_found_lem task_id here = elim (Option-cases (find task_id s.tasks)) [
    | inl e ↦ rw e (
      (
        _,
        respond_lem ResponseType.cancel_operation _
            (accepts-stale X q now v ResponseType.cancel_operation _),
      ),
      h,
    )
    | inr ((key, t), e) ↦
        let f = find-IsFiled task_id key t e in
        elim (Bool-cases (terminal t.state)) [
          | inl done ↦
              rw (e, done)
                (
                  (
                    _,
                    respond_lem ResponseType.cancel_operation _
                        (accepts-terminal X s.capabilities s.logical now q key t v here f done),
                  ),
                  h,
                )
          | inr open' ↦
              let moved = cancelled_later now t f.consistent f.past open' in
              let t' = moved_to CacheOperationState.cancelled (utc_at now) t in
              let f' =
                transition-IsFiled s.capabilities s.logical now key CacheOperationState.cancelled t
                  t' f moved in
              rw (e, open', moved)
                (
                  (
                    _,
                    respond_lem ResponseType.cancel_operation _
                        (accepts-cancelled X s.capabilities s.logical now q key t' v here f' refl),
                  ),
                  put-IsServing now s key t' h f',
                )
        ]
  ]

  pub cancel_operation_lem :
      (task_id : ℕ)
      → IsAnswered (cancel_operation q task_id now s).1
        × IsServing now (cancel_operation q task_id now s).0
  unfolding cancel_operation
  cancel_operation_lem task_id = (
    guarded-IsAnswered _ s.capabilities.cancellation q now _ s v
        (λ here. (cancel_found_lem task_id here).0),
    guarded-keeps (IsServing now) _ s.capabilities.cancellation q now _ s v h
        (λ here. (cancel_found_lem task_id here).1),
  )
