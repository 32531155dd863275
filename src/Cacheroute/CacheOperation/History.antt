-- ===== src/Cacheroute/CacheOperation/History.antt =====
-- What holds of a task after any transitions.
use cache_route.Common.{
  ℕ, ◌≡◌, ◌≤◌, ◌<◌, refl, sym, ◌∙◌, subst, true, false, List, [], ◌∷◌, arith, inl, inr,
}
use cache_route.Cacheroute.State.{Stamp, Result}
use cache_route.Cacheroute.CacheOperation.{
  CacheOperationTask, CacheOperationState, terminal, among, transitions, attempts, is_consistent,
  transition,
}
use cache_route.Cacheroute.CacheOperation.Transition.{transition-IsMove}

-- The task has become another by transitions that succeeded; the requests, the first one first.
pub data Becomes : CacheOperationTask → List CacheOperationState → CacheOperationTask → Type 0 where
  stays : (t : CacheOperationTask) → Becomes t [] t
  moves :
      (t t' t'' : CacheOperationTask) (requested : CacheOperationState) (stamp : Stamp)
      (rest : List CacheOperationState)
      → transition requested stamp t ≡ Result.ok t'
      → Becomes t' rest t''
      → Becomes t (requested ∷ rest) t''

among-terminal : (r s : CacheOperationState) → terminal s ≡ true → among r (transitions s) ≡ false
among-terminal r CacheOperationState.succeeded h = refl
among-terminal r CacheOperationState.failed h = refl
among-terminal r CacheOperationState.cancelled h = refl
among-terminal r CacheOperationState.pending h = absurd (cc)
among-terminal r CacheOperationState.running h = absurd (cc)
among-terminal r CacheOperationState.retry_wait h = absurd (cc)

transition-terminal :
    (r : CacheOperationState) (stamp : Stamp) (t t' : CacheOperationTask)
    → is_consistent t ≡ true
    → terminal t.state ≡ true
    → transition r stamp t ≡ Result.ok t'
    → t' ≡ t
transition-terminal r stamp t t' c done e = elim ((transition-IsMove r stamp t t' c).0 e) [
  | inl (same, e') ↦ e'
  | inr ((other, allowed, utc, later), moved, c') ↦
      let none' = among-terminal r t.state done in absurd (cc)
]

-- A terminal state is never left: whatever transitions succeed, the task stays as it is.
pub Becomes-terminal :
    (t t' : CacheOperationTask) (requests : List CacheOperationState)
    → is_consistent t ≡ true
    → terminal t.state ≡ true
    → Becomes t requests t'
    → t' ≡ t
Becomes-terminal t t' requests c done (Becomes.stays u) = refl
Becomes-terminal t t' requests c done (Becomes.moves u u' u'' requested stamp rest e h) =
    let same : u' ≡ u = transition-terminal requested stamp u u' c done e in
    Becomes-terminal u' u'' rest (subst (λ v. is_consistent v ≡ true) (sym same) c)
      (subst (λ v. terminal v.state ≡ true) (sym same) done) h
    ∙ same

-- How far a task can be with so many attempts.
abbrev pub IsTried : CacheOperationState → ℕ → Type 0
IsTried CacheOperationState.pending n = n ≡ 0
IsTried CacheOperationState.cancelled n = Unit
IsTried s n = 0 < n

-- What a task keeps from `t` on.
pub record Continues (t t' : CacheOperationTask) : Type 0 where
  pub same_task :
      (t'.task_id ≡ t.task_id)
      × (t'.idempotency_key ≡ t.idempotency_key)
      × (t'.operation ≡ t.operation)
      × (t'.artifact_id ≡ t.artifact_id)
      × (t'.created_at ≡ t.created_at)
  pub consistent : is_consistent t' ≡ true
  pub later : t.updated_at.time ≤ t'.updated_at.time
  pub no_fewer : t.attempt ≤ t'.attempt
  pub tried : IsTried t.state t.attempt → IsTried t'.state t'.attempt

Continues-refl : (t : CacheOperationTask) → is_consistent t ≡ true → Continues t t
Continues-refl t c = record {
  same_task = (refl, refl, refl, refl, refl);
  consistent = c;
  later = omega arith;
  no_fewer = omega arith;
  tried = λ h. h;
}

Continues-trans :
    (t t' t'' : CacheOperationTask) → Continues t t' → Continues t' t'' → Continues t t''
Continues-trans t t' t'' h h' =
    let (a, b, c, d, e) = h.same_task in
    let (a', b', c', d', e') = h'.same_task in
    record {
      same_task = (a' ∙ a, b' ∙ b, c' ∙ c, d' ∙ d, e' ∙ e);
      consistent = h'.consistent;
      later = omega (arith, h.later, h'.later);
      no_fewer = omega (arith, h.no_fewer, h'.no_fewer);
      tried = λ k. h'.tried (h.tried k);
    }

no_fewer-attempts : (r : CacheOperationState) (n : ℕ) → n ≤ attempts r n
no_fewer-attempts CacheOperationState.running n = omega arith
no_fewer-attempts CacheOperationState.pending n = omega arith
no_fewer-attempts CacheOperationState.retry_wait n = omega arith
no_fewer-attempts CacheOperationState.succeeded n = omega arith
no_fewer-attempts CacheOperationState.failed n = omega arith
no_fewer-attempts CacheOperationState.cancelled n = omega arith

enters_pending :
    (s : CacheOperationState) (n : ℕ)
    → among CacheOperationState.pending (transitions s) ≡ true
    → IsTried s n
    → IsTried CacheOperationState.pending n
enters_pending CacheOperationState.pending n a h = absurd (cc)
enters_pending CacheOperationState.running n a h = absurd (cc)
enters_pending CacheOperationState.retry_wait n a h = absurd (cc)
enters_pending CacheOperationState.succeeded n a h = absurd (cc)
enters_pending CacheOperationState.failed n a h = absurd (cc)
enters_pending CacheOperationState.cancelled n a h = absurd (cc)

enters_retry_wait :
    (s : CacheOperationState) (n : ℕ)
    → among CacheOperationState.retry_wait (transitions s) ≡ true
    → IsTried s n
    → IsTried CacheOperationState.retry_wait n
enters_retry_wait CacheOperationState.pending n a h = absurd (cc)
enters_retry_wait CacheOperationState.running n a h = h
enters_retry_wait CacheOperationState.retry_wait n a h = absurd (cc)
enters_retry_wait CacheOperationState.succeeded n a h = absurd (cc)
enters_retry_wait CacheOperationState.failed n a h = absurd (cc)
enters_retry_wait CacheOperationState.cancelled n a h = absurd (cc)

enters_succeeded :
    (s : CacheOperationState) (n : ℕ)
    → among CacheOperationState.succeeded (transitions s) ≡ true
    → IsTried s n
    → IsTried CacheOperationState.succeeded n
enters_succeeded CacheOperationState.pending n a h = absurd (cc)
enters_succeeded CacheOperationState.running n a h = h
enters_succeeded CacheOperationState.retry_wait n a h = absurd (cc)
enters_succeeded CacheOperationState.succeeded n a h = absurd (cc)
enters_succeeded CacheOperationState.failed n a h = absurd (cc)
enters_succeeded CacheOperationState.cancelled n a h = absurd (cc)

enters_failed :
    (s : CacheOperationState) (n : ℕ)
    → among CacheOperationState.failed (transitions s) ≡ true
    → IsTried s n
    → IsTried CacheOperationState.failed n
enters_failed CacheOperationState.pending n a h = absurd (cc)
enters_failed CacheOperationState.running n a h = h
enters_failed CacheOperationState.retry_wait n a h = h
enters_failed CacheOperationState.succeeded n a h = absurd (cc)
enters_failed CacheOperationState.failed n a h = absurd (cc)
enters_failed CacheOperationState.cancelled n a h = absurd (cc)

attempts-IsTried :
    (s r : CacheOperationState) (n : ℕ)
    → among r (transitions s) ≡ true
    → IsTried s n
    → IsTried r (attempts r n)
attempts-IsTried s CacheOperationState.running n a h = omega arith
attempts-IsTried s CacheOperationState.cancelled n a h = tt
attempts-IsTried s CacheOperationState.pending n a h = enters_pending s n a h
attempts-IsTried s CacheOperationState.retry_wait n a h = enters_retry_wait s n a h
attempts-IsTried s CacheOperationState.succeeded n a h = enters_succeeded s n a h
attempts-IsTried s CacheOperationState.failed n a h = enters_failed s n a h

transition-Continues :
    (r : CacheOperationState) (stamp : Stamp) (t t' : CacheOperationTask)
    → is_consistent t ≡ true
    → transition r stamp t ≡ Result.ok t'
    → Continues t t'
transition-Continues r stamp t t' c e = elim ((transition-IsMove r stamp t t' c).0 e) [
  | inl (same, e') ↦ subst (Continues t) (sym e') (Continues-refl t c)
  | inr ((other, allowed, utc, later), moved, c') ↦ subst (Continues t) (sym moved) (record {
    same_task = (refl, refl, refl, refl, refl);
    consistent = subst (λ v. is_consistent v ≡ true) moved c';
    later = later;
    no_fewer = no_fewer-attempts r t.attempt;
    tried = λ h. attempts-IsTried t.state r t.attempt allowed h;
  })
]

-- Whatever transitions of a consistent task succeed, it stays consistent and the same operation on
-- the same artifact, its time never goes back and its attempts are never fewer; and if a pending
-- task had none of them at first, it is pending only with none, and running, waiting to be tried
-- again, succeeded or failed only with one or more.
pub Becomes-Continues :
    (t t' : CacheOperationTask) (requests : List CacheOperationState)
    → is_consistent t ≡ true
    → Becomes t requests t'
    → Continues t t'
Becomes-Continues t t' requests c (Becomes.stays u) = Continues-refl u c
Becomes-Continues t t' requests c (Becomes.moves u u' u'' requested stamp rest e h) =
    let first = transition-Continues requested stamp u u' c e in
    Continues-trans u u' u'' first (Becomes-Continues u' u'' rest first.consistent h)
