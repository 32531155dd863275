-- ===== src/Cacheroute/Trace/Collector.antt =====
-- `TraceCollector` of src/cacheroute/observability/collector.py. The clocks and the identifier that the
-- factory makes are arguments; the set of all identifiers is a list, the newest first.
use cache_route.Common.{
  ℕ, ◌-◌, Bool, true, not, Option, none, some, List, [], ◌∷◌, ◌++◌, ltb, leb, length, if◌then◌else◌,
}
use cache_route.Common.Sort.{sort}
use cache_route.Common.Table.{Table}
use cache_route.Common.Table
use cache_route.Common.Text.{Text, text_eq}
use cache_route.Cacheroute.State.{Stamp, Result}
use cache_route.Cacheroute.Contracts.{OutcomeCode, ContractErrorDetail}
use cache_route.Cacheroute.Trace.{
  Patterns, TraceStage, TraceStageState, RequestTrace, lifecycle, listed, is_trace,
}

-- `_OpenStage`
pub record OpenStage : Type 0 where
  pub open_id : Text
  pub open_sequence : ℕ
  pub open_name : ℕ
  pub open_provenance : ℕ
  pub open_started_at : Stamp
  pub started_ns : ℕ
  pub open_parent : Option Text
  pub open_fallback : Option Text
  pub open_operation : Option Text
  pub open_artifact : Option Text
  pub open_measurements : List ℕ

pub record TraceCollector : Type 0 where
  pub collecting : Bool
  pub stages : List TraceStage
  pub open_stages : Table OpenStage
  pub all_ids : List Text

pub data TraceError : Type 0 where
  duplicate_id unknown_parent unknown_fallback unknown_stage clock_backwards still_running
        validation_error :
      TraceError

-- The arguments of `start_stage` and `skip_stage`, the identifier already chosen.
pub record NewStage : Type 0 where
  pub new_id : Text
  pub new_name : ℕ
  pub new_provenance : ℕ
  pub new_parent : Option Text
  pub new_fallback : Option Text
  pub new_operation : Option Text
  pub new_artifact : Option Text

abbrev pub known : Option Text → List Text → Bool
known none all_ids = true
known (some k) all_ids = listed text_eq k all_ids

abbrev pub opened : NewStage → Stamp → ℕ → ℕ → OpenStage
opened n now now_ns sequence = record {
  open_id = n.new_id;
  open_sequence = sequence;
  open_name = n.new_name;
  open_provenance = n.new_provenance;
  open_started_at = now;
  started_ns = now_ns;
  open_parent = n.new_parent;
  open_fallback = n.new_fallback;
  open_operation = n.new_operation;
  open_artifact = n.new_artifact;
  open_measurements = [];
}

-- The stage that an open one is, in its state.
abbrev pub running : OpenStage → TraceStage
running o = record {
  stage_id = o.open_id;
  sequence = o.open_sequence;
  name = o.open_name;
  state = TraceStageState.running;
  provenance = o.open_provenance;
  started_at = some o.open_started_at;
  finished_at = none;
  elapsed_ns = none;
  outcome = none;
  error = none;
  skip_reason = none;
  parent_stage_id = o.open_parent;
  fallback_stage_id = o.open_fallback;
  logical_operation_id = o.open_operation;
  artifact_id = o.open_artifact;
  measurements = o.open_measurements;
}

abbrev pub started : OpenStage → TraceCollector → TraceCollector
started o c = record c {
  open_stages = Table.insert o.open_id o c.open_stages;
  all_ids = o.open_id ∷ c.all_ids;
}

-- `start_stage`
unfoldable pub start_stage :
    Patterns
    → NewStage
    → Stamp
    → ℕ
    → TraceCollector
    → TraceCollector × Result TraceError (Option Text)
start_stage p n now now_ns c =
    if not c.collecting
    then (c, Result.ok none)
    else if listed text_eq n.new_id c.all_ids
    then (c, Result.failed TraceError.duplicate_id)
    else if not (known n.new_parent c.all_ids)
    then (c, Result.failed TraceError.unknown_parent)
    else if not (known n.new_fallback c.all_ids)
    then (c, Result.failed TraceError.unknown_fallback)
    else if not (lifecycle p (running (opened n now now_ns (length c.all_ids))))
    then (c, Result.failed TraceError.validation_error)
    else (started (opened n now now_ns (length c.all_ids)) c, Result.ok (some n.new_id))

abbrev pub measured : ℕ → OpenStage → OpenStage
measured m o = record o { open_measurements = o.open_measurements ++ m ∷ [] }

-- `append_measurement`
unfoldable pub append_measurement :
    Option Text → ℕ → TraceCollector → TraceCollector × Result TraceError (Option Text)
append_measurement none m c = (c, Result.ok none)
append_measurement (some k) m c =
    if not c.collecting then (c, Result.ok none) else elim (Table.lookup k c.open_stages) [
      | none ↦ (c, Result.failed TraceError.unknown_stage)
      | some o ↦
          (record c { open_stages = Table.insert k (measured m o) c.open_stages }, Result.ok none)
    ]

abbrev pub finished : OpenStage → Stamp → ℕ → OutcomeCode → Option ContractErrorDetail → TraceStage
finished o now now_ns outcome error = record (running o) {
  state = TraceStageState.completed;
  finished_at = some now;
  elapsed_ns = some (now_ns - o.started_ns);
  outcome = some outcome;
  error = error;
}

abbrev pub closed : Text → TraceStage → TraceCollector → TraceCollector
closed k s c = record c { open_stages = Table.erase k c.open_stages; stages = c.stages ++ s ∷ [] }

-- `finish_stage`
unfoldable pub finish_stage :
    Patterns
    → Option Text
    → OutcomeCode
    → Option ContractErrorDetail
    → Stamp
    → ℕ
    → TraceCollector
    → TraceCollector × Result TraceError (Option Text)
finish_stage p none outcome error now now_ns c = (c, Result.ok none)
finish_stage p (some k) outcome error now now_ns c =
    if not c.collecting then (c, Result.ok none) else elim (Table.lookup k c.open_stages) [
      | none ↦ (c, Result.failed TraceError.unknown_stage)
      | some o ↦
          if ltb now_ns o.started_ns
          then (c, Result.failed TraceError.clock_backwards)
          else if not (lifecycle p (finished o now now_ns outcome error))
          then (c, Result.failed TraceError.validation_error)
          else (closed k (finished o now now_ns outcome error) c, Result.ok none)
    ]

abbrev pub skipped : NewStage → Text → ℕ → TraceStage
skipped n reason sequence = record {
  stage_id = n.new_id;
  sequence = sequence;
  name = n.new_name;
  state = TraceStageState.skipped;
  provenance = n.new_provenance;
  started_at = none;
  finished_at = none;
  elapsed_ns = none;
  outcome = none;
  error = none;
  skip_reason = some reason;
  parent_stage_id = n.new_parent;
  fallback_stage_id = none;
  logical_operation_id = none;
  artifact_id = none;
  measurements = [];
}

abbrev pub passed : TraceStage → TraceCollector → TraceCollector
passed s c = record c { stages = c.stages ++ s ∷ []; all_ids = s.stage_id ∷ c.all_ids }

-- `skip_stage`; it takes no fallback, operation or artifact.
unfoldable pub skip_stage :
    Patterns → NewStage → Text → TraceCollector → TraceCollector × Result TraceError (Option Text)
skip_stage p n reason c =
    if not c.collecting
    then (c, Result.ok none)
    else if listed text_eq n.new_id c.all_ids
    then (c, Result.failed TraceError.duplicate_id)
    else if not (known n.new_parent c.all_ids)
    then (c, Result.failed TraceError.unknown_parent)
    else if not (lifecycle p (skipped n reason (length c.all_ids)))
    then (c, Result.failed TraceError.validation_error)
    else (passed (skipped n reason (length c.all_ids)) c, Result.ok (some n.new_id))

abbrev pub by_sequence : TraceStage → TraceStage → Bool
by_sequence a b = leb a.sequence b.sequence

abbrev pub exported :
    List Text → Option OutcomeCode → Option ContractErrorDetail → TraceCollector → RequestTrace
exported cache_operation_ids outcome error c = record {
  stages = sort by_sequence c.stages;
  cache_operation_ids = cache_operation_ids;
  trace_outcome = outcome;
  trace_error = error;
}

-- `export`
unfoldable pub export :
    Patterns
    → List Text
    → Option OutcomeCode
    → Option ContractErrorDetail
    → TraceCollector
    → Result TraceError RequestTrace
export p cache_operation_ids outcome error c = elim c.open_stages [
  | entry ∷ rest ↦ Result.failed TraceError.still_running
  | [] ↦
      if is_trace p (exported cache_operation_ids outcome error c)
      then Result.ok (exported cache_operation_ids outcome error c)
      else Result.failed TraceError.validation_error
]
