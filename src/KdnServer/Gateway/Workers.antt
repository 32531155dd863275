-- ===== src/KdnServer/Gateway/Workers.antt =====
-- The workers' calls keep the operations well filed.
use cache_route.Common.{ℕ, ◌≡◌, inl, inr, subst, Bool, Bool-cases, Option-cases}
use cache_route.Common.Text.{Text}
use cache_route.Cacheroute.State.{Result, Result-cases}
use cache_route.Cacheroute.CacheOperation.{CacheOperationTask, CacheOperationState, transition}
use cache_route.Cacheroute.Observation.{utc_at}
use cache_route.KdnServer.Gateway.{MockGateway, find}
use cache_route.KdnServer.Gateway.Work.{start, complete, begun, stored, ending, is_pending}
use cache_route.KdnServer.Gateway.Serving.{
  IsServing, IsFiled, find-lookup, transition-IsFiled, put-IsServing,
}

ok_injective : {E A : Type 0} (a b : A) → ◌≡◌ {A = Result E A} (Result.ok a) (Result.ok b) → a ≡ b
ok_injective a b e = cc

module _ {X : Type 0} where
  stored-IsServing :
      (requested : CacheOperationState) (key : Text) (t : CacheOperationTask) (now : ℕ)
      (s : MockGateway X)
      → IsServing now s
      → IsFiled s.capabilities s.logical now key t
      → IsServing now (stored key (transition requested (utc_at now) t) s).0
  stored-IsServing requested key t now s h f =
      elim (Result-cases (transition requested (utc_at now) t)) [
        | inl (e, failed) ↦ rw failed h
        | inr (t', moved) ↦ rw moved (
            put-IsServing now s key t' h
              (transition-IsFiled s.capabilities s.logical now key requested t t' f moved))
      ]

  pub start-IsServing :
      (task_id now : ℕ) (s : MockGateway X)
      → IsServing now s
      → IsServing now (start task_id now s).0
  unfolding start
  start-IsServing task_id now s h = elim (Option-cases (find task_id s.tasks)) [
    | inl e ↦ rw (e, start) h
    | inr ((key, t), e) ↦
        rw (e, start)
          (stored-IsServing CacheOperationState.running key t now s h
            (h.filed key t (find-lookup task_id s.tasks key t h.unique e).0))
  ]

  begun-IsFiled :
      (key : Text) (t t' : CacheOperationTask) (now : ℕ) (s : MockGateway X)
      → IsFiled s.capabilities s.logical now key t
      → begun now t ≡ Result.ok t'
      → IsFiled s.capabilities s.logical now key t'
  unfolding begun
  begun-IsFiled key t t' now s f e = elim (Bool-cases (is_pending t.state)) [
    | inl pending ↦
        transition-IsFiled s.capabilities s.logical now key CacheOperationState.running t t' f
          (rw pending at e)
    | inr not_pending ↦
        subst (IsFiled s.capabilities s.logical now key) (ok_injective t t' (rw not_pending at e)) f
  ]

  pub complete-IsServing :
      (task_id : ℕ) (failed : Bool) (now : ℕ) (s : MockGateway X)
      → IsServing now s
      → IsServing now (complete task_id failed now s).0
  unfolding complete
  complete-IsServing task_id failed now s h = elim (Option-cases (find task_id s.tasks)) [
    | inl e ↦ rw (e, complete) h
    | inr ((key, t), e) ↦
        let f = h.filed key t (find-lookup task_id s.tasks key t h.unique e).0 in
        elim (Result-cases (begun now t)) [
          | inl (x, e') ↦ rw (e, e', complete) h
          | inr (t', e') ↦
              rw (e, e', complete)
                (stored-IsServing (ending failed) key t' now s h
                  (begun-IsFiled key t t' now s f e'))
        ]
  ]
