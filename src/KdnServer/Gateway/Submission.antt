-- ===== src/KdnServer/Gateway/Submission.antt =====
-- A request for an operation is answered, and the operations stay well filed.
use cache_route.Common.{
  ℕ, ◌≡◌, ◌≢◌, refl, inl, inr, ap, true, false, none, some, arith, Bool-cases, Option-cases, leb,
}
use cache_route.Common.Text.{Text}
use cache_route.Common.Table.{Table, lookup-insert_self}
use cache_route.Common.Table
use cache_route.Cacheroute.State.{Result, nonempty}
use cache_route.Cacheroute.CacheOperation.{
  CacheOperationTask, CacheOperationType, is_consistent, validated,
}
use cache_route.Cacheroute.Contracts.{OutcomeCode, GatewayTargetedRequest, is_request}
use cache_route.Cacheroute.Contracts.CacheService.{ResponseType, accepts, type_code}
use cache_route.KdnServer.Capabilities.{CapabilitySnapshot}
use cache_route.KdnServer.Gateway.{MockGateway, Logical, same_logical, operation_capability}
use cache_route.KdnServer.Gateway.Handlers.{
  operation_answer, again_answer, logical_of, new_task, submit_again, submit_new, submit_key,
  submit_operation,
}
use cache_route.KdnServer.Gateway.Work.{stored}
use cache_route.KdnServer.Gateway.Refusals.{
  IsHere, IsAnswered, respond_lem, accepts-refusal, guarded-IsAnswered, guarded-keeps,
}
use cache_route.KdnServer.Gateway.Serving.{IsFiled, IsServing, add-IsServing}
use cache_route.KdnServer.Gateway.Writes.{accepts-intent}

-- What a request for an operation must be so that the task it makes is accepted: its key and its
-- profile are not blank, and its generation is not 0.
pub record IsSubmittable (q : GatewayTargetedRequest) (key : Text) : Type 0 where
  pub requested : is_request q ≡ true
  pub keyed : nonempty key ≡ true
  pub profiled : nonempty q.compatibility_profile_id ≡ true
  pub known_generation : leb 1 q.endpoint_generation ≡ true

new_task-is_consistent :
    (q : GatewayTargetedRequest) (o : CacheOperationType) (artifact : ℕ) (key : Text)
    (task_id now : ℕ)
    → IsSubmittable q key
    → is_consistent (new_task q o artifact key task_id now) ≡ true
unfolding is_consistent is_request
new_task-is_consistent q o artifact key task_id now h = ground arith

new_task-IsFiled :
    (c : CapabilitySnapshot) (targets : Table Logical) (q : GatewayTargetedRequest)
    (o : CacheOperationType) (artifact : ℕ) (key : Text) (task_id now : ℕ)
    → IsSubmittable q key
    → IsHere c q
    → IsFiled c
        (Table.insert key (logical_of q o artifact) targets)
        now
        key
        (new_task q o artifact key task_id now)
new_task-IsFiled c targets q o artifact key task_id now h here = record {
  consistent = new_task-is_consistent q o artifact key task_id now h;
  profile = here.profile;
  compatibility = here.compatibility;
  endpoint = ap some here.endpoint;
  generation = ap some here.generation;
  past = omega arith;
  target =
      (logical_of q o artifact, lookup-insert_self key (logical_of q o artifact) targets, refl);
}

module _ {X : Type 0} (q : GatewayTargetedRequest) (o : CacheOperationType) (artifact : ℕ)
    (key : Text) (task_id now : ℕ) (s : MockGateway X) (v : IsSubmittable q key)
    (h : IsServing now s) where
  abbrev task : CacheOperationTask
  task = new_task q o artifact key task_id now

  abbrev wanted : Logical
  wanted = logical_of q o artifact

  -- The gateway with the new operation.
  abbrev pub added : MockGateway X
  added = record s {
    tasks = Table.insert key task s.tasks;
    logical = Table.insert key wanted s.logical;
  }

  pub submit_key-new :
      IsHere s.capabilities q
      → Table.lookup key s.tasks ≡ none
      → (submit_key (Table.lookup key s.tasks) key task wanted q now s
          ≡ (added, Result.ok (operation_answer q now task)))
        × IsServing now added
  unfolding submit_key submit_new validated
  submit_key-new here free =
      let f = new_task-IsFiled s.capabilities s.logical q o artifact key task_id now v here in
      let made : validated task ≡ Result.ok task =
        rw (validated, new_task-is_consistent q o artifact key task_id now v) refl in
      rw
        (
          free,
          submit_key,
          submit_new,
          made,
          respond_lem (ResponseType.intent o) (operation_answer {X = X} q now task) (
              accepts-intent X s.capabilities (Table.insert key wanted s.logical) now q key task
                v.requested here f o refl),
        )
        (refl, add-IsServing now s key task wanted h free f)

  -- The key is known: the operation under it is answered if it has the same target, and else a
  -- conflict.
  pub submit_key-again :
      (t : CacheOperationTask)
      → IsHere s.capabilities q
      → Table.lookup key s.tasks ≡ some t
      → (stored : Logical) × (Table.lookup key s.logical ≡ some stored)
        × (submit_key (Table.lookup key s.tasks) key task wanted q now s
            ≡ (s, Result.ok (again_answer q now t stored wanted)))
  unfolding submit_key submit_again
  submit_key-again t here known =
      let f = h.filed key t known in
      let (stored, target, kind) = f.target in
      (
        stored,
        target,
        rw
            (
              known,
              submit_key,
              submit_again,
              target,
              respond_lem (ResponseType.intent o) (again_answer q now t stored wanted)
                  (again stored f kind),
            )
            refl,
      )
    where
      again :
          (stored : Logical)
          → IsFiled s.capabilities s.logical now key t
          → type_code stored.operation ≡ type_code t.operation
          → accepts (ResponseType.intent o) (again_answer {X = X} q now t stored wanted) ≡ true
      again stored f kind = elim (Bool-cases (same_logical stored wanted)) [
        | inl same ↦ rw same (
            accepts-intent X s.capabilities s.logical now q key t v.requested here f o
              (ground arith))
        | inr other ↦ rw other (
            accepts-refusal (ResponseType.intent o) q now OutcomeCode.idempotency_conflict _ false
              false _ refl v.requested refl refl (inl refl))
      ]

  -- A request for an operation answers, and leaves the operations well filed.
  pub submit_operation_lem :
      operation_capability s.capabilities o ≢ none
      → IsAnswered (submit_operation q o artifact key task_id now s).1
        × IsServing now (submit_operation q o artifact key task_id now s).0
  unfolding submit_operation
  submit_operation_lem kind = elim (Option-cases (operation_capability s.capabilities o)) [
    | inl e ↦ absurd (kind e)
    | inr (support, e) ↦
        rw (e, submit_operation)
          (
            guarded-IsAnswered _ support q now _ s v.requested (λ here. (answered here).0),
            guarded-keeps (IsServing now) _ support q now _ s v.requested h
                (λ here. (answered here).1),
          )
  ]
    where
      answered :
          IsHere s.capabilities q
          → IsAnswered (submit_key (Table.lookup key s.tasks) key task wanted q now s).1
            × IsServing now (submit_key (Table.lookup key s.tasks) key task wanted q now s).0
      answered here = elim (Option-cases (Table.lookup key s.tasks)) [
        | inl free ↦
            let (e, serving) = submit_key-new here free in
            rw e ((operation_answer q now task, refl), serving)
        | inr (t, known) ↦
            let (stored, target, e) = submit_key-again t here known in
            rw e ((again_answer q now t stored wanted, refl), h)
      ]
