-- ===== src/KdnServer/Gateway/Once.antt =====
-- An idempotency key stands for one operation, whatever happens between two requests with it.
use cache_route.Common.{
  ℕ, ◌≡◌, ◌≢◌, refl, inl, inr, ap, ◌∙◌, Bool, Option, none, some, List, [], ◌∷◌, arith, Bool-cases,
  Option-cases,
}
use cache_route.Common.Text.{Text, text_eq, text_eq_iff}
use cache_route.Common.Table
use cache_route.Common.Table.{insert-IsTable}
use cache_route.Cacheroute.State.{Result, Result-cases}
use cache_route.Cacheroute.CacheOperation.{
  CacheOperationType, CacheOperationTask, CacheOperationState, transition, validated, terminal,
}
use cache_route.Cacheroute.Observation.{utc_at}
use cache_route.Cacheroute.Contracts.{GatewayTargetedRequest}
use cache_route.Cacheroute.Contracts.CacheService.{Response, ResponseType}
use cache_route.KdnServer.Capabilities.{CapabilitySnapshot}
use cache_route.KdnServer.Gateway.{
  MockGateway, GatewayError, Logical, operation_capability, find, guarded, gate,
}
use cache_route.KdnServer.Gateway.Handlers.{
  lookup_artifact, get_cache_observation, lookup_tokens, submit_operation, new_task, logical_of,
  submit_new, submit_key,
}
use cache_route.KdnServer.Gateway.Work.{
  get_operation_status, cancel_operation, cancel_found, start, complete, begun, stored, ending,
}
use cache_route.KdnServer.Gateway.Summaries.{
  get_endpoints, get_tier_adapter_summary, get_maintenance_status,
}
use cache_route.KdnServer.Gateway.Serving.{find-lookup}
use cache_route.Common.Table.{Table, IsTable, lookup-insert_self, lookup-insert_ne}
use cache_route.KdnServer.Gateway.Calls.{Call, ask}

pub data Event : Type 0 where
  asked : Call → Event
  started : ℕ → Event
  completed : ℕ → Bool → Event

-- Every task with the key `key` has the number `task_id` and the target `target`.
pub record IsKept {X : Type 0} (c : CapabilitySnapshot) (key : Text) (task_id : ℕ)
    (target : Logical) (s : MockGateway X) : Type 0 where
  pub unique : IsTable s.tasks
  pub kept : (t : CacheOperationTask) × (Table.lookup key s.tasks ≡ some t) × (t.task_id ≡ task_id)
  pub filed : Table.lookup key s.logical ≡ some target
  pub here : s.capabilities ≡ c

transition-task_id :
    (requested : CacheOperationState) (now : ℕ) (t t' : CacheOperationTask)
    → transition requested (utc_at now) t ≡ Result.ok t'
    → t'.task_id ≡ t.task_id
unfolding transition validated
transition-task_id requested now t t' e = ground arith

begun-task_id :
    (now : ℕ) (t t' : CacheOperationTask) → begun now t ≡ Result.ok t' → t'.task_id ≡ t.task_id
unfolding begun transition validated
begun-task_id now t t' e = ground arith

module _ {X : Type 0} where
  unfoldable pub happen : Event → ℕ → MockGateway X → MockGateway X
  happen (Event.asked call) now s = (ask call now s).0
  happen (Event.started task_id) now s = (start task_id now s).0
  happen (Event.completed task_id failed) now s = (complete task_id failed now s).0

  unfoldable pub run : List (Event × ℕ) → MockGateway X → MockGateway X
  unfolding happen
  run [] s = s
  run ((e, now) ∷ events) s = run events (happen e now s)

module _ {X : Type 0} (c : CapabilitySnapshot) (key : Text) (task_id : ℕ) (target : Logical) where
  put-IsKept :
      (s : MockGateway X) (k : Text) (t t' : CacheOperationTask) (other_id : ℕ)
      → IsKept c key task_id target s
      → find other_id s.tasks ≡ some (k, t)
      → t'.task_id ≡ t.task_id
      → IsKept c key task_id target (record s { tasks = Table.insert k t' s.tasks })
  put-IsKept s k t t' other_id h found same = record {
    unique = insert-IsTable k t' s.tasks h.unique;
    kept = elim (Bool-cases (text_eq key k)) [
      | inl e ↦ (
        t',
        ground (arith, Table.lookup-insert key k t' s.tasks),
        ground (
          arith,
          h.kept.1,
          same,
          text_eq_iff key k,
          find-lookup other_id s.tasks k t h.unique found,
        ),
      )
      | inr e ↦ (h.kept.0, ground (arith, h.kept.1, Table.lookup-insert key k t' s.tasks), h.kept.2)
    ];
    filed = h.filed;
    here = h.here;
  }

  guarded-IsKept :
      (type : ResponseType) (g : Option (Response X))
      (answer : MockGateway X × Result GatewayError (Response X)) (s : MockGateway X)
      → IsKept c key task_id target s
      → IsKept c key task_id target answer.0
      → IsKept c key task_id target (guarded type g answer s).0
  unfolding guarded
  guarded-IsKept type none answer s h k = k
  guarded-IsKept type (some r) answer s h k = h

  stored-IsKept :
      (requested : CacheOperationState) (now other_id : ℕ) (k : Text) (t t' : CacheOperationTask)
      (s : MockGateway X)
      → IsKept c key task_id target s
      → find other_id s.tasks ≡ some (k, t)
      → t'.task_id ≡ t.task_id
      → IsKept c key task_id target (stored k (transition requested (utc_at now) t') s).0
  stored-IsKept requested now other_id k t t' s h found same =
      elim (Result-cases (transition requested (utc_at now) t')) [
        | inl (e, failed) ↦ rw failed h
        | inr (t'', moved) ↦ rw moved (
            put-IsKept s k t t'' other_id h found
              (transition-task_id requested now t' t'' moved ∙ same))
      ]

  complete-IsKept :
      (other_id : ℕ) (failed : Bool) (now : ℕ) (s : MockGateway X)
      → IsKept c key task_id target s
      → IsKept c key task_id target (complete other_id failed now s).0
  unfolding complete
  complete-IsKept other_id failed now s h = elim (Option-cases (find other_id s.tasks)) [
    | inl e ↦ rw (e, complete) h
    | inr ((k, t), e) ↦ elim (Result-cases (begun now t)) [
      | inl (x, e') ↦ rw (e, e', complete) h
      | inr (t', e') ↦
          rw (e, e', complete)
            (stored-IsKept (ending failed) now other_id k t t' s h e (begun-task_id now t t' e'))
    ]
  ]

  cancel_found-IsKept :
      (q : GatewayTargetedRequest) (other_id now : ℕ) (s : MockGateway X)
      → IsKept c key task_id target s
      → IsKept c key task_id target (cancel_found (find other_id s.tasks) q now s).0
  unfolding cancel_found
  cancel_found-IsKept q other_id now s h = elim (Option-cases (find other_id s.tasks)) [
    | inl e ↦ rw e h
    | inr ((k, t), e) ↦ elim (Bool-cases (terminal t.state)) [
      | inl done ↦ rw (e, done) h
      | inr open' ↦ elim (Result-cases (transition CacheOperationState.cancelled (utc_at now) t)) [
        | inl (x, failed) ↦ rw (e, open', failed) h
        | inr (t', moved) ↦
            rw (e, open', moved)
              (put-IsKept s k t t' other_id h e
                (transition-task_id CacheOperationState.cancelled now t t' moved))
      ]
    ]
  ]

  submit_new-IsKept :
      (k : Text) (t : CacheOperationTask) (l : Logical) (q : GatewayTargetedRequest) (now : ℕ)
      (s : MockGateway X)
      → IsKept c key task_id target s
      → Table.lookup k s.tasks ≡ none
      → IsKept c key task_id target (submit_new k t l q now s).0
  unfolding submit_new
  submit_new-IsKept k t l q now s h free = elim (Result-cases (validated t)) [
    | inl (e, failed) ↦ rw (failed, submit_new) h
    | inr (t', made) ↦
        let other : key ≢ k =
          λ e. let e' = ap (λ x. Table.lookup x s.tasks) e in let found = h.kept.1 in cc in
        rw (made, submit_new)
          (record {
            unique = insert-IsTable k t' s.tasks h.unique;
            kept = (h.kept.0, lookup-insert_ne key k t' s.tasks other ∙ h.kept.1, h.kept.2);
            filed = lookup-insert_ne key k l s.logical other ∙ h.filed;
            here = h.here;
          })
  ]

  submission-IsKept :
      (q : GatewayTargetedRequest) (o : CacheOperationType) (a : ℕ) (k : Text) (new_id now : ℕ)
      (s : MockGateway X)
      → IsKept c key task_id target s
      → IsKept c key task_id target (submit_operation q o a k new_id now s).0
  unfolding submit_operation submit_key
  submission-IsKept q o a k new_id now s h =
      elim (Option-cases (operation_capability s.capabilities o)) [
        | inl e ↦ rw (e, submit_operation) h
        | inr (support, e) ↦
            rw (e, submit_operation)
              (guarded-IsKept _ (gate s.capabilities support q now)
                (submit_key (Table.lookup k s.tasks) k (new_task q o a k new_id now)
                  (logical_of q o a) q now s)
                s h
                (elim (Option-cases (Table.lookup k s.tasks)) [
                  | inl free ↦
                      rw (free, submit_key)
                        (submit_new-IsKept k (new_task q o a k new_id now) (logical_of q o a) q now
                          s h free)
                  | inr (t, known) ↦ rw (known, submit_key) h
                ]))
      ]

  start-IsKept :
      (other_id now : ℕ) (s : MockGateway X)
      → IsKept c key task_id target s
      → IsKept c key task_id target (start other_id now s).0
  unfolding start
  start-IsKept other_id now s h = elim (Option-cases (find other_id s.tasks)) [
    | inl e ↦ rw (e, start) h
    | inr ((k, t), e) ↦
        rw (e, start) (stored-IsKept CacheOperationState.running now other_id k t t s h e refl)
  ]

  happen-IsKept :
      (e : Event) (now : ℕ) (s : MockGateway X)
      → IsKept c key task_id target s
      → IsKept c key task_id target (happen e now s)
  unfolding happen ask start lookup_artifact get_cache_observation lookup_tokens
      get_tier_adapter_summary get_maintenance_status get_operation_status get_endpoints
      cancel_operation
  happen-IsKept (Event.asked (Call.artifact q a)) now s h = guarded-IsKept _ _ _ s h h
  happen-IsKept (Event.asked (Call.observation q a)) now s h = guarded-IsKept _ _ _ s h h
  happen-IsKept (Event.asked (Call.status q t)) now s h = guarded-IsKept _ _ _ s h h
  happen-IsKept (Event.asked (Call.cancellation q t)) now s h =
      guarded-IsKept _ _ _ s h (cancel_found-IsKept q t now s h)
  happen-IsKept (Event.asked (Call.tokens q t)) now s h = guarded-IsKept _ _ _ s h h
  happen-IsKept (Event.asked (Call.submission q o a k t)) now s h =
      submission-IsKept q o a k t now s h
  happen-IsKept (Event.asked (Call.endpoints d)) now s h = h
  happen-IsKept (Event.asked (Call.tiers q)) now s h = guarded-IsKept _ _ _ s h h
  happen-IsKept (Event.asked (Call.maintenance q)) now s h = guarded-IsKept _ _ _ s h h
  happen-IsKept (Event.started other_id) now s h = start-IsKept other_id now s h
  happen-IsKept (Event.completed other_id failed) now s h = complete-IsKept other_id failed now s h

  pub run-IsKept :
      (events : List (Event × ℕ)) (s : MockGateway X)
      → IsKept c key task_id target s
      → IsKept c key task_id target (run events s)
  unfolding run
  run-IsKept [] s h = h
  run-IsKept ((e, now) ∷ events) s h = run-IsKept events (happen e now s) (happen-IsKept e now s h)
