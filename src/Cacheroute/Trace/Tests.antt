-- ===== src/Cacheroute/Trace/Tests.antt =====
-- A trace with three stages, and references that go round.
use cache_route.Common.{ℕ, ◌≡◌, refl, true, Option, none, some, List, [], ◌∷◌, suc, length, is_some}
use cache_route.Common.Table.{Table}
use cache_route.Common.Text.{Text, codes, text_eq}
use cache_route.Cacheroute.State.{Stamp, Result}
use cache_route.Cacheroute.Contracts.{OutcomeCode}
use cache_route.Cacheroute.Trace.{Patterns, walk, lifecycle, error_ok}
use cache_route.Cacheroute.Trace.Collector.{
  NewStage, exported, export, start_stage, append_measurement, finish_stage, skip_stage,
}
use cache_route.Cacheroute.Trace.Calls.{Call, run, new_collector}
use cache_route.Cacheroute.Trace.Export.{export-succeeds}
use cache_route.Cacheroute.Trace.Walk.{walk-ends_from}

abbrev patterns : Patterns
patterns = record { is_label = λ s. true; is_message = λ s. true; is_operation = λ s. true }

abbrev stamp : ℕ → Stamp
stamp time = record { time = time; utc = true }

abbrev new : Text → Option Text → NewStage
new k parent = record {
  new_id = k;
  new_name = 1;
  new_provenance = 2;
  new_parent = parent;
  new_fallback = none;
  new_operation = none;
  new_artifact = none;
}

-- The first stage ends last, the second start is refused.
abbrev calls : List Call
calls =
    Call.start (new (codes "a") none) (stamp 1) 100
    ∷ Call.start (new (codes "b") (some (codes "c"))) (stamp 2) 200
    ∷ Call.start (new (codes "b") (some (codes "a"))) (stamp 3) 300
    ∷ Call.measure (some (codes "b")) 5
    ∷ Call.finish (some (codes "b")) OutcomeCode.success none (stamp 4) 400
    ∷ Call.skip (new (codes "c") (some (codes "b"))) (codes "off")
    ∷ Call.finish (some (codes "a")) OutcomeCode.success none (stamp 5) 500
    ∷ []

export-succeeds_example :
    export patterns (codes "cacheop" ∷ []) none none (run patterns calls (new_collector true))
    ≡ Result.ok
        (exported (codes "cacheop" ∷ []) none none (run patterns calls (new_collector true)))
unfolding run start_stage lifecycle append_measurement finish_stage skip_stage error_ok text_eq
export-succeeds_example =
    export-succeeds patterns true calls (codes "cacheop" ∷ []) none none refl refl refl refl

abbrev round : Table (Option Text)
round = (codes "a", some (codes "b")) ∷ (codes "b", some (codes "a")) ∷ []

walk-ends_from_example : is_some (walk (suc (length round)) round [] (some (codes "a"))) ≡ true
walk-ends_from_example = walk-ends_from round (codes "a")
