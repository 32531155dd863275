-- ===== src/Cacheroute/Trace/Export.antt =====
-- The export of a trace after any sequence of calls.
use cache_route.Common.{
  ◌≡◌, refl, ap, ◌∙◌, Bool, true, not, ◌&&◌, ◌||◌, Option, List, [], ◌∷◌, arith, All-Member,
  All-of_Member,
}
use cache_route.Common.Sort.{sort, insert_sorted, sort-IsSorted, Member-sort}
use cache_route.Common.Table.{Table}
use cache_route.Common.Table
use cache_route.Common.Text.{Text, text_eq, text_eq_iff}
use cache_route.Cacheroute.State.{Result}
use cache_route.Cacheroute.Contracts.{OutcomeCode, ContractErrorDetail}
use cache_route.Cacheroute.Trace.{
  Patterns, TraceStage, listed, distinct, ids, error_ok, every, is_trace,
}
use cache_route.Cacheroute.Trace.Collector.{by_sequence, exported, export}
use cache_route.Cacheroute.Trace.Placed.{IsPlaced}
use cache_route.Cacheroute.Trace.Ordered.{ordered-of_placed}
use cache_route.Cacheroute.Trace.Calls.{
  Call, new_collector, run, run-IsCollected, new_collector-IsCollected,
}

listed-insert :
    (k : Text) (s : TraceStage) (stages : List TraceStage)
    → listed text_eq k (ids (insert_sorted by_sequence s stages))
      ≡ (text_eq k s.stage_id || listed text_eq k (ids stages))
unfolding insert_sorted
listed-insert k s [] = refl
listed-insert k s (t ∷ stages) = ground (arith, listed-insert k s stages)

listed-sort :
    (k : Text) (stages : List TraceStage)
    → listed text_eq k (ids (sort by_sequence stages)) ≡ listed text_eq k (ids stages)
unfolding sort
listed-sort k [] = refl
listed-sort k (s ∷ stages) =
    listed-insert k s (sort by_sequence stages)
    ∙ ap (λ b. text_eq k s.stage_id || b) (listed-sort k stages)

distinct-insert :
    (s : TraceStage) (stages : List TraceStage)
    → distinct text_eq (ids (insert_sorted by_sequence s stages))
      ≡ (not (listed text_eq s.stage_id (ids stages)) && distinct text_eq (ids stages))
unfolding insert_sorted
distinct-insert s [] = refl
distinct-insert s (t ∷ stages) = ground (
  arith,
  distinct-insert s stages,
  listed-insert t.stage_id s stages,
  text_eq_iff s.stage_id t.stage_id,
  text_eq_iff t.stage_id s.stage_id,
)

distinct-sort :
    (stages : List TraceStage)
    → distinct text_eq (ids (sort by_sequence stages)) ≡ distinct text_eq (ids stages)
unfolding sort
distinct-sort [] = refl
distinct-sort (s ∷ stages) =
    distinct-insert s (sort by_sequence stages)
    ∙ ground (arith, listed-sort s.stage_id stages, distinct-sort stages)

-- Whatever calls a new collector has had, raising or not: if no stage is running and the identifiers,
-- outcome and error that come with the export are fine by themselves, then the export succeeds, since
-- the stages pass all checks of a trace: their order, their references and the search for cycles.
pub export-succeeds :
    (p : Patterns) (collecting : Bool) (calls : List Call) (cache_operation_ids : List Text)
    (outcome : Option OutcomeCode) (error : Option ContractErrorDetail)
    → let c = run p calls (new_collector collecting) in
      c.open_stages ≡ []
      → distinct text_eq cache_operation_ids ≡ true
      → every p.is_operation cache_operation_ids ≡ true
      → error_ok p outcome error ≡ true
      → export p cache_operation_ids outcome error c
        ≡ Result.ok (exported cache_operation_ids outcome error c)
unfolding export is_trace
export-succeeds p collecting calls cache_operation_ids outcome error none_open unique operations
      fine =
    let c = run p calls (new_collector collecting) in
    let h =
      run-IsCollected p calls (new_collector collecting) (new_collector-IsCollected collecting) in
    let placed = All-of_Member (IsPlaced c.all_ids) (sort by_sequence c.stages) (λ s m.
      All-Member (IsPlaced c.all_ids) c.stages s h.stages_placed
        (Member-sort by_sequence s c.stages m)) in
    let sorted =
      sort-IsSorted by_sequence c.stages (λ a b. ground arith) (λ a b d e f. ground arith) in
    let complete : (k : Text)
        → listed text_eq k c.all_ids ≡ true
        → listed text_eq k (ids (sort by_sequence c.stages)) ≡ true =
      λ k l.
        ground (arith, h.complete k l, listed-sort k c.stages, ap (Table.contains k) none_open) in
    let in_order =
      ordered-of_placed c.all_ids (sort by_sequence c.stages) placed sorted
        (distinct-sort c.stages ∙ h.ids_distinct) complete in
    rw (none_open, in_order, unique, operations, fine) refl
