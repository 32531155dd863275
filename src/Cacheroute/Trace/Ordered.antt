-- ===== src/Cacheroute/Trace/Ordered.antt =====
-- A list of stages that stand where they were begun passes the checks of a trace.
use cache_route.Common.{
  ℕ, ◌≡◌, refl, sym, ap, subst, ◌∙◌, true, false, Option, none, some, List, [], ◌∷◌, ◌==◌, leb,
  arith, Bool-cases, inl, inr, All,
}
use cache_route.Common.Sort.{sort, insert_sorted, IsSorted}
use cache_route.Common.Text.{Text, text_eq, text_eq_iff}
use cache_route.Cacheroute.Trace.{
  TraceStage, listed, distinct, references, ids, sequences, refers, all_refer, same_list, acyclic,
  ordered,
}
use cache_route.Cacheroute.Trace.Collector.{by_sequence}
use cache_route.Cacheroute.Trace.Placed.{
  position, IsBefore, IsPlaced, position-injective, position-listed,
}
use cache_route.Cacheroute.Trace.Acyclic.{GoesBack, acyclic-back}

pub All-weaken :
    {A : Type 0} (P Q : A → Type 0) (xs : List A) → ((a : A) → P a → Q a) → All P xs → All Q xs
All-weaken P Q [] f h = tt
All-weaken P Q (x ∷ xs) f h = (f x h.0, All-weaken P Q xs f h.1)

same_list_refl : (ns : List ℕ) → same_list ns ns ≡ true
same_list_refl [] = refl
same_list_refl (n ∷ ns) = ground (arith, same_list_refl ns)

insert_first :
    (s : TraceStage) (stages : List TraceStage)
    → All (λ t. by_sequence s t ≡ true) stages
    → insert_sorted leb s.sequence (sequences stages) ≡ s.sequence ∷ sequences stages
unfolding insert_sorted
insert_first s [] h = refl
insert_first s (t ∷ stages) h = rw (insert_sorted, h.0) refl

sort_sorted :
    (stages : List TraceStage)
    → IsSorted by_sequence stages
    → sort leb (sequences stages) ≡ sequences stages
unfolding sort
sort_sorted [] h = refl
sort_sorted (s ∷ stages) h =
    ap (insert_sorted leb s.sequence) (sort_sorted stages h.1) ∙ insert_first s stages h.0

module _ (all_ids : List Text) where
  abbrev pub AllPlaced : List TraceStage → Type 0
  AllPlaced stages = All (IsPlaced all_ids) stages

  listed_sequence :
      (s : TraceStage) (stages : List TraceStage)
      → IsPlaced all_ids s
      → AllPlaced stages
      → listed (λ a b. a == b) s.sequence (sequences stages) ≡ true
      → listed text_eq s.stage_id (ids stages) ≡ true
  listed_sequence s [] p h e = absurd (cc)
  listed_sequence s (t ∷ stages) p h e = elim (Bool-cases (s.sequence == t.sequence)) [
    | inl same ↦
        let number : t.sequence ≡ s.sequence = ground arith in
        let one =
          position-injective s.stage_id t.stage_id all_ids s.sequence p.at_its_place
            (h.0.at_its_place ∙ ap some number) in
        ground (arith, text_eq_iff s.stage_id t.stage_id)
    | inr other ↦ ground (arith, listed_sequence s stages p h.1)
  ]

  distinct_sequences :
      (stages : List TraceStage)
      → AllPlaced stages
      → distinct text_eq (ids stages) ≡ true
      → distinct (λ a b. a == b) (sequences stages) ≡ true
  distinct_sequences [] h d = refl
  distinct_sequences (s ∷ stages) h d =
      ground (arith, listed_sequence s stages h.0 h.1, distinct_sequences stages h.1)

  module _ (known : List Text)
      (complete : (k : Text)
        → listed text_eq k all_ids ≡ true
        → listed text_eq k known ≡ true) where
    before-refers :
        (s : TraceStage) (k : Option Text)
        → IsPlaced all_ids s
        → IsBefore s.sequence all_ids k
        → refers s known k ≡ true
    before-refers s none p b = refl
    before-refers s (some k) p (m, at, lt) =
        let there = complete k (position-listed k all_ids m at) in
        let other : text_eq k s.stage_id ≡ false = elim (Bool-cases (text_eq k s.stage_id)) [
          | inr ne ↦ ne
          | inl same ↦
              let it_is : k ≡ s.stage_id = ground (arith, text_eq_iff k s.stage_id) in
              absurd (ground (arith, sym at ∙ ap (λ x. position x all_ids) it_is ∙ p.at_its_place))
        ] in
        ground arith

    placed-refer : (stages : List TraceStage) → AllPlaced stages → all_refer stages known ≡ true
    placed-refer [] h = refl
    placed-refer (s ∷ stages) h =
        let parent = before-refers s s.parent_stage_id h.0 h.0.parent_before in
        let fallback = before-refers s s.fallback_stage_id h.0 h.0.fallback_before in
        rw (parent, fallback) (placed-refer stages h.1)

  listed_inside :
      (stages : List TraceStage)
      → AllPlaced stages
      → (k : Text) → listed text_eq k (ids stages) ≡ true
      → listed text_eq k all_ids ≡ true
  listed_inside [] h k l = absurd (cc)
  listed_inside (s ∷ stages) h k l = elim (Bool-cases (text_eq k s.stage_id)) [
    | inl same ↦
        let it_is : k ≡ s.stage_id = ground (arith, text_eq_iff k s.stage_id) in
        ap (λ x. listed text_eq x all_ids) it_is
        ∙ position-listed s.stage_id all_ids s.sequence h.0.at_its_place
    | inr other ↦ listed_inside stages h.1 k (rw other at l)
  ]

  -- Stages in order, each at its place, with all identifiers that were given out.
  pub ordered-of_placed :
      (stages : List TraceStage)
      → AllPlaced stages
      → IsSorted by_sequence stages
      → distinct text_eq (ids stages) ≡ true
      → ((k : Text) → listed text_eq k all_ids ≡ true → listed text_eq k (ids stages) ≡ true)
      → ordered stages ≡ true
  unfolding ordered
  ordered-of_placed stages h sorted d complete =
      let back : (f : TraceStage → Option Text)
          → ((s : TraceStage) → IsPlaced all_ids s → IsBefore s.sequence all_ids (f s))
          → acyclic (references f stages) (ids stages) ≡ true =
        λ f before.
          acyclic-back all_ids f stages
            (All-weaken (λ s. IsPlaced all_ids s) (GoesBack all_ids f) stages
              (λ s p. (p.at_its_place, before s p)) h)
            complete (listed_inside stages h) in
      let in_order =
        subst (λ ns. same_list (sequences stages) ns ≡ true) (sym (sort_sorted stages sorted))
          (same_list_refl (sequences stages)) in
      let apart = distinct_sequences stages h d in
      let refer = placed-refer (ids stages) complete stages h in
      let parents = back (λ s. s.parent_stage_id) (λ s p. p.parent_before) in
      let fallbacks = back (λ s. s.fallback_stage_id) (λ s p. p.fallback_before) in
      rw (in_order, apart, d, refer, parents, fallbacks) refl
