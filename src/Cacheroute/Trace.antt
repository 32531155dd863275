-- ===== src/Cacheroute/Trace.antt =====
-- src/cacheroute/observability: the stages of a request's trace (v1/models.py) and the collector of one
-- trace (collector.py). Names, provenance and measurements are only carried, so they are numbers here.
-- Which texts the regular expressions accept is an argument, `Patterns`.
pub mod Acyclic
pub mod Calls
pub mod Collected
pub mod Collector
pub mod Export
pub mod Ordered
pub mod Placed
mod Tests
pub mod Walk
use cache_route.Common.{
  ℕ, zero, suc, ◌+◌, ◌-◌, Bool, true, false, not, ◌&&◌, ◌||◌, Option, none, some, List, [], ◌∷◌,
  ◌++◌, ◌==◌, leb, ltb, length, map, is_some, if◌then◌else◌,
}
use cache_route.Common.Table.{Table}
use cache_route.Common.Table
use cache_route.Common.Text.{Text, text_eq}
use cache_route.Common.Sort.{sort}
use cache_route.Cacheroute.State.{Stamp, Result}
use cache_route.Cacheroute.Contracts.{OutcomeCode, ContractErrorDetail, outcome_code}

pub data TraceStageState : Type 0 where
  pending running completed skipped : TraceStageState

pub record TraceStage : Type 0 where
  pub stage_id : Text
  pub sequence : ℕ
  pub name : ℕ
  pub state : TraceStageState
  pub provenance : ℕ
  pub started_at : Option Stamp
  pub finished_at : Option Stamp
  pub elapsed_ns : Option ℕ
  pub outcome : Option OutcomeCode
  pub error : Option ContractErrorDetail
  pub skip_reason : Option Text
  pub parent_stage_id : Option Text
  pub fallback_stage_id : Option Text
  pub logical_operation_id : Option Text
  pub artifact_id : Option Text
  pub measurements : List ℕ

-- What the regular expressions of the labels, messages and operations' identifiers accept.
pub record Patterns : Type 0 where
  pub is_label : Text → Bool
  pub is_message : Text → Bool
  pub is_operation : Text → Bool

has_break : Text → Bool
has_break [] = false
has_break (c ∷ s) = c == 10 || c == 13 || has_break s

-- Not empty, at most `limit` characters, one line.
one_line : ℕ → Text → Bool
unfolding has_break
one_line limit s = leb 1 (length s) && leb (length s) limit && not (has_break s)

-- `_safe_label`
safe_label : Patterns → ℕ → Text → Bool
unfolding one_line
safe_label p limit s = one_line limit s && p.is_label s

-- `_safe_message`
safe_message : Patterns → Text → Bool
unfolding one_line
safe_message p s = one_line 512 s && p.is_message s

abbrev each : {A : Type 0} → (A → Bool) → Option A → Bool
each f none = true
each f (some a) = f a

absent : {A : Type 0} → Option A → Bool
absent a = not (is_some a)

-- What each state wants of a stage.
by_state : Patterns → TraceStage → TraceStageState → Bool
unfolding safe_label absent
by_state p s TraceStageState.pending =
    absent s.started_at
    && absent s.finished_at
    && absent s.elapsed_ns
    && absent s.outcome
    && absent s.error
    && absent s.skip_reason
by_state p s TraceStageState.running =
    is_some s.started_at
    && absent s.finished_at
    && absent s.elapsed_ns
    && absent s.outcome
    && absent s.error
    && absent s.skip_reason
by_state p s TraceStageState.completed =
    is_some s.started_at
    && is_some s.finished_at
    && is_some s.elapsed_ns
    && is_some s.outcome
    && absent s.skip_reason
by_state p s TraceStageState.skipped =
    is_some s.skip_reason
    && absent s.started_at
    && absent s.finished_at
    && absent s.elapsed_ns
    && absent s.outcome
    && absent s.error
    && each (safe_label p 256) s.skip_reason

-- The error detail says the outcome, in a message that is safe.
unfoldable pub error_ok : Patterns → Option OutcomeCode → Option ContractErrorDetail → Bool
unfolding safe_message
error_ok p outcome none = true
error_ok p none (some e) = false
error_ok p (some o) (some e) = outcome_code o == outcome_code e.code && safe_message p e.message

-- The validators of `TraceStage`.
unfoldable pub lifecycle : Patterns → TraceStage → Bool
unfolding by_state error_ok safe_label
lifecycle p s =
    each (λ t. t.utc) s.started_at
    && each (λ t. t.utc) s.finished_at
    && by_state p s s.state
    && error_ok p s.outcome s.error
    && safe_label p 128 s.stage_id
    && each (safe_label p 128) s.parent_stage_id
    && each (safe_label p 128) s.fallback_stage_id
    && each (safe_label p 128) s.logical_operation_id
    && each (safe_label p 128) s.artifact_id

-- `len(set(xs)) == len(xs)`
abbrev pub listed : {A : Type 0} → (A → A → Bool) → A → List A → Bool
listed eq a [] = false
listed eq a (b ∷ xs) = eq a b || listed eq a xs

abbrev pub distinct : {A : Type 0} → (A → A → Bool) → List A → Bool
distinct eq [] = true
distinct eq (a ∷ xs) = not (listed eq a xs) && distinct eq xs

abbrev pub same_list : List ℕ → List ℕ → Bool
same_list [] [] = true
same_list (m ∷ ms) (n ∷ ns) = m == n && same_list ms ns
same_list ms ns = false

abbrev pub ids : List TraceStage → List Text
ids stages = map (λ s. s.stage_id) stages

abbrev pub sequences : List TraceStage → List ℕ
sequences stages = map (λ s. s.sequence) stages

-- A reference to another stage of the list.
abbrev pub refers : TraceStage → List Text → Option Text → Bool
refers s known none = true
refers s known (some k) = listed text_eq k known && not (text_eq k s.stage_id)

abbrev pub all_refer : List TraceStage → List Text → Bool
all_refer [] known = true
all_refer (s ∷ stages) known =
    refers s known s.parent_stage_id && refers s known s.fallback_stage_id && all_refer stages known

-- `references`
abbrev pub references : (TraceStage → Option Text) → List TraceStage → Table (Option Text)
references attribute [] = []
references attribute (s ∷ stages) = (s.stage_id, attribute s) ∷ references attribute stages

-- The loop over `current`: whether it ends without a cycle. A reference to no stage raises too.
unfoldable pub walk : ℕ → Table (Option Text) → List Text → Option Text → Option Bool
walk fuel refs seen none = some true
walk zero refs seen (some k) = none
walk (suc fuel) refs seen (some k) = elim (Table.lookup k refs) [
  | none ↦ some false
  | some next ↦ if listed text_eq k seen then some false else walk fuel refs (k ∷ seen) next
]

abbrev pub ended : Option Bool → Bool
ended none = false
ended (some b) = b

-- From every stage, with a round more than there are references.
unfoldable pub acyclic : Table (Option Text) → List Text → Bool
unfolding walk
acyclic refs [] = true
acyclic refs (k ∷ ks) = ended (walk (suc (length refs)) refs [] (some k)) && acyclic refs ks

-- `_ordered`
unfoldable pub ordered : List TraceStage → Bool
unfolding acyclic
ordered stages =
    same_list (sequences stages) (sort leb (sequences stages))
    && distinct (λ a b. a == b) (sequences stages)
    && distinct text_eq (ids stages)
    && all_refer stages (ids stages)
    && acyclic (references (λ s. s.parent_stage_id) stages) (ids stages)
    && acyclic (references (λ s. s.fallback_stage_id) stages) (ids stages)

-- `RequestTrace`, its context left out.
pub record RequestTrace : Type 0 where
  pub stages : List TraceStage
  pub cache_operation_ids : List Text
  pub trace_outcome : Option OutcomeCode
  pub trace_error : Option ContractErrorDetail

abbrev pub every : (Text → Bool) → List Text → Bool
every f [] = true
every f (k ∷ ks) = f k && every f ks

-- The validators of `RequestTrace`.
unfoldable pub is_trace : Patterns → RequestTrace → Bool
unfolding error_ok ordered
is_trace p t =
    ordered t.stages
    && distinct text_eq t.cache_operation_ids
    && every p.is_operation t.cache_operation_ids
    && error_ok p t.trace_outcome t.trace_error
