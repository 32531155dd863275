-- ===== src/Cacheroute/Trace/Acyclic.antt =====
-- References that go back in order have no cycle.
use cache_route.Common.{
  ℕ, zero, suc, ◌≡◌, ◌≤◌, refl, sym, ap, subst, ◌∙◌, Bool, true, Option, none, some, List, [], ◌∷◌,
  length, arith, Bool-cases, Option-cases, inl, inr, All,
}
use cache_route.Common.Table.{Table}
use cache_route.Common.Table
use cache_route.Common.Text.{Text, text_eq, text_eq_iff}
use cache_route.Cacheroute.Trace.{TraceStage, listed, references, ids, walk, acyclic}
use cache_route.Cacheroute.Trace.Placed.{position, IsBefore, listed-position, position-listed}
use cache_route.Cacheroute.Trace.Walk.{walk-ends_from}

module _ (all_ids : List Text) (attribute : TraceStage → Option Text) where
  -- The stage is at its place, and its reference is to one before.
  abbrev pub GoesBack : TraceStage → Type 0
  GoesBack s =
      (position s.stage_id all_ids ≡ some s.sequence) × IsBefore s.sequence all_ids (attribute s)

  lookup-references :
      (k : Text) (n : ℕ) (stages : List TraceStage)
      → All GoesBack stages
      → position k all_ids ≡ some n
      → listed text_eq k (ids stages) ≡ true
      → (next : Option Text) × (Table.lookup k (references attribute stages) ≡ some next)
        × IsBefore n all_ids next
  lookup-references k n [] h at l = absurd (cc)
  lookup-references k n (s ∷ stages) h at l = elim (Bool-cases (text_eq k s.stage_id)) [
    | inl same ↦
        let it_is : k ≡ s.stage_id = ground (arith, text_eq_iff k s.stage_id) in
        let places = sym h.0.0 ∙ ap (λ x. position x all_ids) (sym it_is) ∙ at in
        let number : s.sequence ≡ n = cc in
        (attribute s, rw same refl, subst (λ m. IsBefore m all_ids (attribute s)) number h.0.1)
    | inr other ↦
        let (next, found, before) = lookup-references k n stages h.1 at (rw other at l) in
        (next, rw other found, before)
  ]

  module _ (stages : List TraceStage) (h : All GoesBack stages)
      (complete : (k : Text)
        → listed text_eq k all_ids ≡ true
        → listed text_eq k (ids stages) ≡ true) where
    walk-back :
        (fuel : ℕ) (seen : List Text) (current : Option Text) (n : ℕ) (b : Bool)
        → IsBefore n all_ids current
        → ((j : Text)
            → listed text_eq j seen ≡ true
            → (m : ℕ) × (position j all_ids ≡ some m) × (n ≤ m))
        → walk fuel (references attribute stages) seen current ≡ some b
        → b ≡ true
    unfolding walk
    walk-back fuel seen none n b before after e = ground arith
    walk-back zero seen (some k) n b before after e = absurd (cc)
    walk-back (suc fuel) seen (some k) n b (m, at, lt) after e =
        let (next, found, back) =
          lookup-references k m stages h at (complete k (position-listed k all_ids m at)) in
        elim (Bool-cases (listed text_eq k seen)) [
          | inl again ↦
              let (p, place, le) = after k again in
              let same : m ≡ p = ground (arith, at, place) in absurd (omega arith)
          | inr first ↦
              walk-back fuel (k ∷ seen) next m b back
                (λ j l. elim (Bool-cases (text_eq j k)) [
                  | inl same ↦
                      let it_is : j ≡ k = ground (arith, text_eq_iff j k) in
                      (m, ap (λ x. position x all_ids) it_is ∙ at, omega arith)
                  | inr other ↦
                      let (p, place, le) = after j (rw other at l) in (p, place, omega arith)
                ])
                (rw (walk, found, first) at e)
        ]

    acyclic-from :
        (ks : List Text)
        → ((k : Text) → listed text_eq k ks ≡ true → listed text_eq k all_ids ≡ true)
        → acyclic (references attribute stages) ks ≡ true
    unfolding acyclic
    acyclic-from [] inside = refl
    acyclic-from (k ∷ ks) inside =
        let refs = references attribute stages in
        let (n, at) = listed-position k all_ids (inside k (ground (arith, text_eq_iff k k))) in
        let rest = acyclic-from ks (λ j l. inside j (ground arith)) in
        elim (Option-cases (walk (suc (length refs)) refs [] (some k))) [
          | inl endless ↦ absurd (ground (arith, walk-ends_from refs k))
          | inr (b, ends) ↦
              let fine =
                walk-back (suc (length refs)) [] (some k) (suc n) b (n, at, omega arith)
                  (λ j l. absurd (cc)) ends in
              rw (acyclic, ends, fine) rest
        ]

  -- No cycle is found from any of the stages.
  pub acyclic-back :
      (stages : List TraceStage)
      → All GoesBack stages
      → ((k : Text) → listed text_eq k all_ids ≡ true → listed text_eq k (ids stages) ≡ true)
      → ((k : Text) → listed text_eq k (ids stages) ≡ true → listed text_eq k all_ids ≡ true)
      → acyclic (references attribute stages) (ids stages) ≡ true
  acyclic-back stages h complete inside = acyclic-from stages h complete (ids stages) inside
