-- ===== src/KdnServer/Gateway/Serving.antt =====
-- What holds of the operations that a gateway keeps.
use cache_route.Common.{
  ℕ, ◌≡◌, ◌≤◌, refl, inl, inr, ap, subst, sym, ◌∙◌, true, none, some, [], ◌∷◌, ◌==◌, arith,
  Bool-cases,
}
use cache_route.Common.Text.{Text, text_eq_iff}
use cache_route.Common.Table.{Table, IsTable, insert-IsTable, lookup-insert-cases, lookup-insert_ne}
use cache_route.Common.Table
use cache_route.Cacheroute.State.{Result}
use cache_route.Cacheroute.CacheOperation.{
  CacheOperationTask, CacheOperationState, is_consistent, transition,
}
use cache_route.Cacheroute.CacheOperation.Transition.{transition-IsMove}
use cache_route.Cacheroute.Observation.{utc_at}
use cache_route.Cacheroute.Contracts.{profile_code}
use cache_route.Cacheroute.Contracts.CacheService.{type_code}
use cache_route.KdnServer.Capabilities.{CapabilitySnapshot}
use cache_route.KdnServer.Gateway.{MockGateway, Logical, find}

-- A task kept under its key is consistent, for the gateway's endpoint, was not changed after `now`,
-- and is filed with a target of its kind.
pub record IsFiled (c : CapabilitySnapshot) (targets : Table Logical) (now : ℕ) (key : Text)
    (t : CacheOperationTask) : Type 0 where
  pub consistent : is_consistent t ≡ true
  pub profile : profile_code t.runtime_profile ≡ profile_code c.runtime_profile
  pub compatibility : t.compatibility_profile_id ≡ c.compatibility_profile_id
  pub endpoint : t.endpoint_id ≡ some c.endpoint_id
  pub generation : t.endpoint_generation ≡ some c.endpoint_generation
  pub past : t.updated_at.time ≤ now
  pub target :
      (l : Logical) × (Table.lookup key targets ≡ some l)
      × (type_code l.operation ≡ type_code t.operation)

pub record IsServing {X : Type 0} (now : ℕ) (s : MockGateway X) : Type 0 where
  pub unique : IsTable s.tasks
  pub filed :
      (key : Text) (t : CacheOperationTask)
      → Table.lookup key s.tasks ≡ some t
      → IsFiled s.capabilities s.logical now key t

-- The task that is found stands under its key.
pub find-lookup :
    (task_id : ℕ) (tasks : Table CacheOperationTask) (key : Text) (t : CacheOperationTask)
    → IsTable tasks
    → find task_id tasks ≡ some (key, t)
    → (Table.lookup key tasks ≡ some t) × (t.task_id ≡ task_id)
find-lookup task_id [] key t u e = absurd (cc)
find-lookup task_id ((j, w) ∷ tasks) key t u e = elim (Bool-cases (w.task_id == task_id)) [
  | inl same ↦ ground (arith, text_eq_iff key j)
  | inr other ↦ ground (arith, text_eq_iff key j, find-lookup task_id tasks key t u.1)
]

-- A transition at `now` keeps all but the state, the attempts and the time.
pub record IsSameTask (t t' : CacheOperationTask) : Type 0 where
  pub same_id : t'.task_id ≡ t.task_id
  pub same_kind : t'.operation ≡ t.operation
  pub same_profile : t'.runtime_profile ≡ t.runtime_profile
  pub same_compatibility : t'.compatibility_profile_id ≡ t.compatibility_profile_id
  pub same_endpoint : t'.endpoint_id ≡ t.endpoint_id
  pub same_generation : t'.endpoint_generation ≡ t.endpoint_generation

pub transition-IsSameTask :
    (requested : CacheOperationState) (now : ℕ) (t t' : CacheOperationTask)
    → is_consistent t ≡ true
    → t.updated_at.time ≤ now
    → transition requested (utc_at now) t ≡ Result.ok t'
    → IsSameTask t t' × (is_consistent t' ≡ true) × (t'.updated_at.time ≤ now)
transition-IsSameTask requested now t t' c past e =
    elim ((transition-IsMove requested (utc_at now) t t' c).0 e) [
      | inl (same, e') ↦ rw e' (
        record {
          same_id = refl;
          same_kind = refl;
          same_profile = refl;
          same_compatibility = refl;
          same_endpoint = refl;
          same_generation = refl;
        },
        c,
        past,
      )
      | inr (move, e', c') ↦ ground (arith, e', c')
    ]

pub transition-IsFiled :
    (c : CapabilitySnapshot) (targets : Table Logical) (now : ℕ) (key : Text)
    (requested : CacheOperationState) (t t' : CacheOperationTask)
    → IsFiled c targets now key t
    → transition requested (utc_at now) t ≡ Result.ok t'
    → IsFiled c targets now key t'
transition-IsFiled c targets now key requested t t' f e =
    let (same, consistent, past) = transition-IsSameTask requested now t t' f.consistent f.past e in
    let (l, found, kind) = f.target in
    record {
      consistent = consistent;
      profile = ap profile_code same.same_profile ∙ f.profile;
      compatibility = same.same_compatibility ∙ f.compatibility;
      endpoint = same.same_endpoint ∙ f.endpoint;
      generation = same.same_generation ∙ f.generation;
      past = past;
      target = (l, found, kind ∙ sym (ap type_code same.same_kind));
    }

module _ {X : Type 0} where
  -- A task is put back under a key.
  pub put-IsServing :
      (now : ℕ) (s : MockGateway X) (key : Text) (t : CacheOperationTask)
      → IsServing now s
      → IsFiled s.capabilities s.logical now key t
      → IsServing now (record s { tasks = Table.insert key t s.tasks })
  put-IsServing now s key t h f = record {
    unique = insert-IsTable key t s.tasks h.unique;
    filed = λ k u e. elim (lookup-insert-cases k key t u s.tasks e) [
      | inl (same, new) ↦
          subst (λ x. IsFiled s.capabilities s.logical now x u) (sym same)
            (subst (IsFiled s.capabilities s.logical now key) (sym new) f)
      | inr (other, old) ↦ h.filed k u old
    ];
  }

  -- A task is stored with its target under a key that no task has.
  pub add-IsServing :
      (now : ℕ) (s : MockGateway X) (key : Text) (t : CacheOperationTask) (l : Logical)
      → IsServing now s
      → Table.lookup key s.tasks ≡ none
      → IsFiled s.capabilities (Table.insert key l s.logical) now key t
      → IsServing now
          (record s { tasks = Table.insert key t s.tasks; logical = Table.insert key l s.logical })
  add-IsServing now s key t l h free f = record {
    unique = insert-IsTable key t s.tasks h.unique;
    filed = λ k u e. elim (lookup-insert-cases k key t u s.tasks e) [
      | inl (same, new) ↦
          subst (λ x. IsFiled s.capabilities (Table.insert key l s.logical) now x u) (sym same)
            (subst (IsFiled s.capabilities (Table.insert key l s.logical) now key) (sym new) f)
      | inr (other, old) ↦
          let g = h.filed k u old in
          let (l', found, kind) = g.target in
          record {
            consistent = g.consistent;
            profile = g.profile;
            compatibility = g.compatibility;
            endpoint = g.endpoint;
            generation = g.generation;
            past = g.past;
            target = (l', lookup-insert_ne k key l s.logical other ∙ found, kind);
          }
    ];
  }

  -- Time passes.
  pub later-IsServing :
      (now later : ℕ) (s : MockGateway X) → now ≤ later → IsServing now s → IsServing later s
  later-IsServing now later s le h = record {
    unique = h.unique;
    filed = λ k t e.
        let g = h.filed k t e in
        record {
          consistent = g.consistent;
          profile = g.profile;
          compatibility = g.compatibility;
          endpoint = g.endpoint;
          generation = g.generation;
          past = omega (arith, g.past);
          target = g.target;
        };
  }
