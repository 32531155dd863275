-- ===== src/Proxy/Strategy/LeastLoad/Least.antt =====
-- The choice of the least load is a least one.
use cache_route.Common.{
  ◌≡◌, ◌≢◌, refl, ap, sym, subst, true, Option, none, some, List, [], ◌∷◌, map, keep, Member, All,
  arith, inl, inr, Option-cases, Bool-cases, All-of_Member, All-Member,
}
use cache_route.Common.Floats.{Floats, IsOrdered, min_from, min?}
use cache_route.Common.Floats.Order.{le_refl, min_from-le, min_from-Member}
use cache_route.Proxy.Pool.{InstanceInfo}
use cache_route.Proxy.Strategy.RoundRobin.{RoundRobin}
use cache_route.Proxy.Strategy.RoundRobin
use cache_route.Proxy.Strategy.LeastLoad.{
  LeastLoad, Hint, compute_score, select, known_scores, choose, float_eq,
}

module _ {R : Type 0} ⦃f : Floats R⦄ where
  -- The first is known, and at most the second, wherever the second is known.
  abbrev pub NotAbove : Option R → Option R → Type 0
  NotAbove s none = Unit
  NotAbove none (some t) = ⊥
  NotAbove (some s) (some t) = f.le s t ≡ true

module _ {R : Type 0} ⦃f : Floats R⦄ (ord : IsOrdered f) where
  module _ {C : Type 0} (score : InstanceInfo R C → Option R) where
    known_scores_sound :
        (it : InstanceInfo R C) (t : R) (xs : List (InstanceInfo R C))
        → Member (it, t) (known_scores score xs)
        → Member it xs × (score it ≡ some t)
    unfolding known_scores
    known_scores_sound it t [] h = absurd h
    known_scores_sound it t (x ∷ xs) h =
        ground (arith, known_scores_sound it t xs, ap score {x = it} {y = x})

    known_scores_complete :
        (it : InstanceInfo R C) (t : R) (xs : List (InstanceInfo R C))
        → Member it xs
        → score it ≡ some t
        → Member (it, t) (known_scores score xs)
    unfolding known_scores
    known_scores_complete it t [] m e = absurd m
    known_scores_complete it t (x ∷ xs) m e =
        ground (arith, known_scores_complete it t xs, ap score {x = it} {y = x})

    -- The candidates of a minimum: those whose total it equals.
    abbrev candidates : R → List (InstanceInfo R C × R) → List (InstanceInfo R C)
    candidates m known = map (λ e. e.0) (keep (λ e. float_eq e.1 m) known)

    totals :
        (other : InstanceInfo R C) (t : R) (known : List (InstanceInfo R C × R))
        → Member (other, t) known
        → Member t (map (λ e. e.1) known)
    totals other t [] m = absurd m
    totals other t (e ∷ known) (inl h) = inl (ap (λ e. e.1) h)
    totals other t (e ∷ known) (inr m) = inr (totals other t known m)

    candidates_sound :
        (it : InstanceInfo R C) (m : R) (known : List (InstanceInfo R C × R))
        → Member it (candidates m known)
        → (t : R) × Member (it, t) known × (f.le t m ≡ true)
    candidates_sound it m [] h = absurd h
    candidates_sound it m ((x, s) ∷ known) h =
        let later = λ (h' : Member it (candidates m known)).
          (let (t, k, le) = candidates_sound it m known h' in
            let r : (t : R) × Member (it, t) ((x, s) ∷ known) × (f.le t m ≡ true) =
              (t, inr k, le) in
            r) in
        elim (Bool-cases (float_eq s m)) [
          | inl e ↦ elim (let h' : Member it (x ∷ candidates m known) = rw e at h in h') [
            | inl same ↦ (s, inl (ap (λ y. (y, s)) same), ground arith)
            | inr h' ↦ later h'
          ]
          | inr e ↦ later (rw e at h)
        ]

    candidates-ne :
        (m : R) (known : List (InstanceInfo R C × R))
        → Member m (map (λ e. e.1) known)
        → candidates m known ≢ []
    candidates-ne m [] h = absurd h
    candidates-ne m ((x, s) ∷ known) h = ground (arith, candidates-ne m known, le_refl ord m)

    -- Of the candidates the chosen one is in the list, and none has a lower total.
    abbrev pub IsLeast : InstanceInfo R C → List (InstanceInfo R C) → Type 0
    IsLeast it instances = All (λ other. NotAbove (score it) (score other)) instances

    NotAbove-intro :
        (it other : InstanceInfo R C) (s : R)
        → score it ≡ some s
        → ((t : R) → score other ≡ some t → f.le s t ≡ true)
        → NotAbove (score it) (score other)
    NotAbove-intro it other s e h = elim (Option-cases (score other)) [
      | inl none' ↦ rw none' tt
      | inr (t, e') ↦ rw (e, e') (h t e')
    ]

    nothing_known :
        (it other : InstanceInfo R C)
        → ((t : R) → score other ≡ some t → ⊥)
        → NotAbove (score it) (score other)
    nothing_known it other h = elim (Option-cases (score other)) [
      | inl e ↦ rw e tt
      | inr (t, e) ↦ absurd (h t e)
    ]

    totals-le :
        (other : InstanceInfo R C) (t : R) (x : InstanceInfo R C) (s : R)
        (known : List (InstanceInfo R C × R))
        → Member (other, t) ((x, s) ∷ known)
        → f.le (min_from s (map (λ e. e.1) known)) t ≡ true
    totals-le other t x s known m =
        let (h, hs) = min_from-le ord s (map (λ e. e.1) known) in
        All-Member (λ y. f.le (min_from s (map (λ e. e.1) known)) y ≡ true)
          (s ∷ map (λ e. e.1) known) t (h, hs) (totals other t ((x, s) ∷ known) m)

    choose-IsLeast :
        (instances : List (InstanceInfo R C)) (known : List (InstanceInfo R C × R))
        (rr : RoundRobin)
        → known ≡ known_scores score instances
        → instances ≢ []
        → (it : InstanceInfo R C) × ((choose instances known (min? (map (λ e. e.1) known)) rr).0
            ≡ some it)
          × Member it instances
          × IsLeast it instances
    unfolding choose
    choose-IsLeast instances [] rr e ne =
        let (it, chosen, found) = RoundRobin.select-Member instances rr ne in
        (
          it,
          chosen,
          found,
          All-of_Member (λ other. NotAbove (score it) (score other)) instances
              (λ other o. nothing_known it other (λ t e'.
                subst (Member (other, t)) (sym e) (known_scores_complete other t instances o e'))),
        )
    choose-IsLeast instances ((x, s) ∷ known) rr e ne =
        let m : R = min_from s (map (λ e. e.1) known) in
        let all = (x, s) ∷ known in
        let (it, chosen, among) =
          RoundRobin.select-Member (candidates m all) rr
            (candidates-ne m all (min_from-Member ord s (map (λ e. e.1) known))) in
        let (t, entry, low) = candidates_sound it m all among in
        let (found, scored) = known_scores_sound it t instances (subst (Member (it, t)) e entry) in
        (
          it,
          chosen,
          found,
          All-of_Member (λ other. NotAbove (score it) (score other)) instances
              (λ other o. NotAbove-intro it other t scored (λ t' e'. ord.le_trans t m t' low (
                totals-le other t' x s known (
                  subst (Member (other, t')) (sym e)
                    (known_scores_complete other t' instances o e'))))),
        )

module _ {R C : Type 0} ⦃f : Floats R⦄ (ord : IsOrdered f) where
  -- From a non-empty list `select` always chooses one of its instances, and none of them has a
  -- known total below that of the chosen one: if any total is known, so is the chosen one's.
  pub select-IsLeast :
      (instances : List (InstanceInfo R C)) (hint : Hint R) (s : LeastLoad R)
      → instances ≢ []
      → (it : InstanceInfo R C) × ((select instances hint s).0 ≡ some it)
        × Member it instances
        × IsLeast ord (λ i. (compute_score s.weights hint i).total) it instances
  unfolding select
  select-IsLeast instances hint s ne =
      choose-IsLeast ord (λ i. (compute_score s.weights hint i).total) instances _ s.rr refl ne
