-- ===== src/Cacheroute/Trace/Collected.antt =====
-- What the collector keeps: its stages stand where they were begun.
use cache_route.Common.{
  ℕ, ◌≡◌, ◌≢◌, refl, sym, ap, subst, ◌∙◌, true, false, not, ◌&&◌, ◌||◌, Option, none, some, List,
  [], ◌∷◌, ◌++◌, length, arith, Bool-cases, Option-cases, inl, inr, All,
}
use cache_route.Common.Table.{
  Table, IsTable, lookup-insert, lookup-insert-cases, insert-IsTable, erase-IsTable,
  lookup-erase_ne, lookup-erase_self,
}
use cache_route.Common.Table
use cache_route.Common.Text.{Text, text_eq, text_eq_iff}
use cache_route.Cacheroute.Trace.{TraceStage, listed, distinct, ids}
use cache_route.Cacheroute.Trace.Collector.{
  TraceCollector, OpenStage, running, started, measured, closed, passed, known,
}
use cache_route.Cacheroute.Trace.Ordered.{All-weaken}
use cache_route.Cacheroute.Trace.Placed.{
  IsBefore, IsPlaced, IsPlaced-keep, IsBefore-keep, listed-position, position-listed,
  position-bound,
}

pub record IsCollected (c : TraceCollector) : Type 0 where
  pub stages_placed : All (IsPlaced c.all_ids) c.stages
  pub open_placed :
      (k : Text) (o : OpenStage)
      → Table.lookup k c.open_stages ≡ some o
      → (k ≡ o.open_id) × IsPlaced c.all_ids (running o)
  pub complete :
      (k : Text)
      → listed text_eq k c.all_ids ≡ true
      → (listed text_eq k (ids c.stages) || Table.contains k c.open_stages) ≡ true
  pub separate :
      (k : Text) → Table.contains k c.open_stages ≡ true → listed text_eq k (ids c.stages) ≡ false
  pub inside :
      (k : Text) → listed text_eq k (ids c.stages) ≡ true → listed text_eq k c.all_ids ≡ true
  pub ids_distinct : distinct text_eq (ids c.stages) ≡ true
  pub open_unique : IsTable c.open_stages

listed-snoc :
    (k : Text) (stages : List TraceStage) (s : TraceStage)
    → listed text_eq k (ids (stages ++ s ∷ []))
      ≡ (listed text_eq k (ids stages) || text_eq k s.stage_id)
listed-snoc k [] s = ground arith
listed-snoc k (t ∷ stages) s = ground (arith, listed-snoc k stages s)

distinct-snoc :
    (stages : List TraceStage) (s : TraceStage)
    → distinct text_eq (ids (stages ++ s ∷ []))
      ≡ (distinct text_eq (ids stages) && not (listed text_eq s.stage_id (ids stages)))
distinct-snoc [] s = refl
distinct-snoc (t ∷ stages) s = ground (
  arith,
  distinct-snoc stages s,
  listed-snoc t.stage_id stages s,
  text_eq_iff t.stage_id s.stage_id,
  text_eq_iff s.stage_id t.stage_id,
)

All-snoc :
    (P : TraceStage → Type 0) (stages : List TraceStage) (s : TraceStage)
    → All P stages
    → P s
    → All P (stages ++ s ∷ [])
All-snoc P [] s h p = (p, tt)
All-snoc P (t ∷ stages) s h p = (h.0, All-snoc P stages s h.1 p)

-- A reference that is known is to one before the next stage.
known-IsBefore :
    (k : Option Text) (all_ids : List Text)
    → known k all_ids ≡ true
    → IsBefore (length all_ids) all_ids k
known-IsBefore none all_ids h = tt
known-IsBefore (some k) all_ids h =
    let (m, at) = listed-position k all_ids h in (m, at, position-bound k all_ids m at)

-- A new stage is at its place.
new-IsPlaced :
    (s : TraceStage) (all_ids : List Text)
    → s.sequence ≡ length all_ids
    → listed text_eq s.stage_id all_ids ≡ false
    → known s.parent_stage_id all_ids ≡ true
    → known s.fallback_stage_id all_ids ≡ true
    → IsPlaced (s.stage_id ∷ all_ids) s
new-IsPlaced s all_ids number fresh parent fallback = record {
  at_its_place = rw number (ground (arith, text_eq_iff s.stage_id s.stage_id));
  parent_before = rw number (
      IsBefore-keep (length all_ids) s.stage_id all_ids s.parent_stage_id fresh
        (known-IsBefore s.parent_stage_id all_ids parent));
  fallback_before = rw number (
      IsBefore-keep (length all_ids) s.stage_id all_ids s.fallback_stage_id fresh
        (known-IsBefore s.fallback_stage_id all_ids fallback));
}

pub started-IsCollected :
    (o : OpenStage) (c : TraceCollector)
    → o.open_sequence ≡ length c.all_ids
    → listed text_eq o.open_id c.all_ids ≡ false
    → known o.open_parent c.all_ids ≡ true
    → known o.open_fallback c.all_ids ≡ true
    → IsCollected c
    → IsCollected (started o c)
started-IsCollected o c number fresh parent fallback h = record {
  stages_placed =
      All-weaken (IsPlaced c.all_ids) (IsPlaced (o.open_id ∷ c.all_ids)) c.stages
        (λ s. IsPlaced-keep o.open_id c.all_ids s fresh) h.stages_placed;
  open_placed = λ k p e. elim (lookup-insert-cases k o.open_id o p c.open_stages e) [
    | inl (same, it) ↦ (
      same ∙ ap (λ x. x.open_id) (sym it),
      subst (λ x. IsPlaced (o.open_id ∷ c.all_ids) (running x)) (sym it)
          (new-IsPlaced (running o) c.all_ids number fresh parent fallback),
    )
    | inr (other, found) ↦
        let (key, placed) = h.open_placed k p found in
        (key, IsPlaced-keep o.open_id c.all_ids (running p) fresh placed)
  ];
  complete = λ k l. ground (arith, h.complete k, lookup-insert k o.open_id o c.open_stages);
  separate = λ k l. ground (
    arith,
    h.separate k,
    h.inside k,
    text_eq_iff k o.open_id,
    lookup-insert k o.open_id o c.open_stages,
    ap (λ x. listed text_eq x c.all_ids) {x = k} {y = o.open_id},
  );
  inside = λ k l. ground (arith, h.inside k);
  ids_distinct = h.ids_distinct;
  open_unique = insert-IsTable o.open_id o c.open_stages h.open_unique;
}

open-listed :
    (k : Text) (c : TraceCollector)
    → IsCollected c
    → Table.contains k c.open_stages ≡ true
    → listed text_eq k c.all_ids ≡ true
open-listed k c h l = elim (Option-cases (Table.lookup k c.open_stages)) [
  | inl nothing ↦ absurd (ground arith)
  | inr (o, found) ↦
      let (same, placed) = h.open_placed k o found in
      ap (λ x. listed text_eq x c.all_ids) same
      ∙ position-listed o.open_id c.all_ids o.open_sequence placed.at_its_place
]

pub passed-IsCollected :
    (s : TraceStage) (c : TraceCollector)
    → s.sequence ≡ length c.all_ids
    → listed text_eq s.stage_id c.all_ids ≡ false
    → known s.parent_stage_id c.all_ids ≡ true
    → known s.fallback_stage_id c.all_ids ≡ true
    → IsCollected c
    → IsCollected (passed s c)
passed-IsCollected s c number fresh parent fallback h = record {
  stages_placed =
      All-snoc (IsPlaced (s.stage_id ∷ c.all_ids)) c.stages s
        (All-weaken (IsPlaced c.all_ids) (IsPlaced (s.stage_id ∷ c.all_ids)) c.stages
          (λ t. IsPlaced-keep s.stage_id c.all_ids t fresh) h.stages_placed)
        (new-IsPlaced s c.all_ids number fresh parent fallback);
  open_placed = λ k p e.
      let (key, placed) = h.open_placed k p e in
      (key, IsPlaced-keep s.stage_id c.all_ids (running p) fresh placed);
  complete = λ k l. ground (arith, h.complete k, listed-snoc k c.stages s);
  separate = λ k l. ground (
    arith,
    h.separate k,
    open-listed k c h l,
    listed-snoc k c.stages s,
    text_eq_iff k s.stage_id,
    ap (λ x. listed text_eq x c.all_ids) {x = k} {y = s.stage_id},
  );
  inside = λ k l. ground (arith, h.inside k, listed-snoc k c.stages s);
  ids_distinct = ground (arith, h.ids_distinct, distinct-snoc c.stages s, h.inside s.stage_id);
  open_unique = h.open_unique;
}

lookup-erased :
    (j k : Text) (p : OpenStage) (d : Table OpenStage)
    → IsTable d
    → Table.lookup j (Table.erase k d) ≡ some p
    → Table.lookup j d ≡ some p
lookup-erased j k p d u e = elim (Bool-cases (text_eq j k)) [
  | inl same ↦
      let it_is : j ≡ k = ground (arith, text_eq_iff j k) in
      absurd
        (ground (arith, lookup-erase_self k d u, ap (λ x. Table.lookup x (Table.erase k d)) it_is))
  | inr other ↦
      let ne : j ≢ k = ground (arith, text_eq_iff j k) in sym (lookup-erase_ne j k d ne) ∙ e
]

-- A stage that takes the place of an open one.
pub closed-IsCollected :
    (k : Text) (o : OpenStage) (s : TraceStage) (c : TraceCollector)
    → Table.lookup k c.open_stages ≡ some o
    → s.stage_id ≡ o.open_id
    → IsPlaced c.all_ids s
    → IsCollected c
    → IsCollected (closed k s c)
closed-IsCollected k o s c found same placed h =
    let key : k ≡ s.stage_id = (h.open_placed k o found).0 ∙ sym same in
    record {
      stages_placed = All-snoc (IsPlaced c.all_ids) c.stages s h.stages_placed placed;
      open_placed = λ j p e. h.open_placed j p (lookup-erased j k p c.open_stages h.open_unique e);
      complete = λ j l. ground (
        arith,
        h.complete j,
        listed-snoc j c.stages s,
        text_eq_iff j s.stage_id,
        key,
        lookup-erase_ne j k c.open_stages,
      );
      separate = λ j l. ground (
        arith,
        h.separate j,
        listed-snoc j c.stages s,
        text_eq_iff j s.stage_id,
        key,
        lookup-erase_ne j k c.open_stages,
        lookup-erase_self k c.open_stages h.open_unique,
      );
      inside = λ j l. ground (
        arith,
        h.inside j,
        listed-snoc j c.stages s,
        text_eq_iff j s.stage_id,
        key,
        open-listed k c h,
      );
      ids_distinct = ground (
        arith,
        h.ids_distinct,
        distinct-snoc c.stages s,
        key,
        h.separate k,
        ap (λ x. listed text_eq x (ids c.stages)) key,
      );
      open_unique = erase-IsTable k c.open_stages h.open_unique;
    }

pub measured-IsCollected :
    (k : Text) (m : ℕ) (o : OpenStage) (c : TraceCollector)
    → Table.lookup k c.open_stages ≡ some o
    → IsCollected c
    → IsCollected (record c { open_stages = Table.insert k (measured m o) c.open_stages })
measured-IsCollected k m o c found h = record {
  stages_placed = h.stages_placed;
  open_placed = λ j p e. elim (lookup-insert-cases j k (measured m o) p c.open_stages e) [
    | inr (other, there) ↦ h.open_placed j p there
    | inl (same, it) ↦
        let (key, placed) = h.open_placed k o found in
        subst (λ x. (j ≡ x.open_id) × IsPlaced c.all_ids (running x)) (sym it)
          (
            same ∙ key,
            record {
              at_its_place = placed.at_its_place;
              parent_before = placed.parent_before;
              fallback_before = placed.fallback_before;
            },
          )
  ];
  complete = λ j l. ground (arith, h.complete j, lookup-insert j k (measured m o) c.open_stages);
  separate = λ j l.
      ground (arith, h.separate j, lookup-insert j k (measured m o) c.open_stages, text_eq_iff j k);
  inside = h.inside;
  ids_distinct = h.ids_distinct;
  open_unique = insert-IsTable k (measured m o) c.open_stages h.open_unique;
}
