-- ===== src/Cacheroute/Trace/Calls.antt =====
-- Sequences of calls of the collector, and what they keep.
use cache_route.Common.{
  ℕ, refl, Bool, not, Option, none, some, List, [], ◌∷◌, ltb, length, Bool-cases, Option-cases, inl,
  inr,
}
use cache_route.Common.Table.{Table}
use cache_route.Common.Table
use cache_route.Common.Text.{Text, text_eq}
use cache_route.Cacheroute.State.{Stamp}
use cache_route.Cacheroute.Contracts.{OutcomeCode, ContractErrorDetail}
use cache_route.Cacheroute.Trace.{Patterns, listed, lifecycle}
use cache_route.Cacheroute.Trace.Collector.{
  TraceCollector, NewStage, running, opened, start_stage, append_measurement, finished,
  finish_stage, skipped, skip_stage, known,
}
use cache_route.Cacheroute.Trace.Collected.{
  IsCollected, started-IsCollected, passed-IsCollected, closed-IsCollected, measured-IsCollected,
}

-- `TraceCollector(context)`
abbrev pub new_collector : Bool → TraceCollector
new_collector collecting = record {
  collecting = collecting;
  stages = [];
  open_stages = [];
  all_ids = [];
}

pub data Call : Type 0 where
  start : NewStage → Stamp → ℕ → Call
  measure : Option Text → ℕ → Call
  finish : Option Text → OutcomeCode → Option ContractErrorDetail → Stamp → ℕ → Call
  skip : NewStage → Text → Call

-- The collector after a call, whether it raises or not.
unfoldable pub call : Patterns → Call → TraceCollector → TraceCollector
call p (Call.start n now now_ns) c = (start_stage p n now now_ns c).0
call p (Call.measure k m) c = (append_measurement k m c).0
call p (Call.finish k outcome error now now_ns) c = (finish_stage p k outcome error now now_ns c).0
call p (Call.skip n reason) c = (skip_stage p n reason c).0

unfoldable pub run : Patterns → List Call → TraceCollector → TraceCollector
unfolding call
run p [] c = c
run p (x ∷ calls) c = run p calls (call p x c)

start_stage-IsCollected :
    (p : Patterns) (n : NewStage) (now : Stamp) (now_ns : ℕ) (c : TraceCollector)
    → IsCollected c
    → IsCollected (start_stage p n now now_ns c).0
unfolding start_stage
start_stage-IsCollected p n now now_ns c h = elim (Bool-cases (not c.collecting)) [
  | inl off ↦ rw off h
  | inr on ↦ elim (Bool-cases (listed text_eq n.new_id c.all_ids)) [
    | inl again ↦ rw (on, again) h
    | inr fresh ↦ elim (Bool-cases (known n.new_parent c.all_ids)) [
      | inr missing ↦ rw (on, fresh, missing) h
      | inl parent ↦ elim (Bool-cases (known n.new_fallback c.all_ids)) [
        | inr missing ↦ rw (on, fresh, parent, missing) h
        | inl fallback ↦
            elim (Bool-cases (lifecycle p (running (opened n now now_ns (length c.all_ids))))) [
              | inr refused ↦ rw (on, fresh, parent, fallback, refused) h
              | inl fine ↦
                  rw (on, fresh, parent, fallback, fine)
                    (started-IsCollected (opened n now now_ns (length c.all_ids)) c refl fresh
                      parent fallback h)
            ]
      ]
    ]
  ]
]

skip_stage-IsCollected :
    (p : Patterns) (n : NewStage) (reason : Text) (c : TraceCollector)
    → IsCollected c
    → IsCollected (skip_stage p n reason c).0
unfolding skip_stage
skip_stage-IsCollected p n reason c h = elim (Bool-cases (not c.collecting)) [
  | inl off ↦ rw off h
  | inr on ↦ elim (Bool-cases (listed text_eq n.new_id c.all_ids)) [
    | inl again ↦ rw (on, again) h
    | inr fresh ↦ elim (Bool-cases (known n.new_parent c.all_ids)) [
      | inr missing ↦ rw (on, fresh, missing) h
      | inl parent ↦ elim (Bool-cases (lifecycle p (skipped n reason (length c.all_ids)))) [
        | inr refused ↦ rw (on, fresh, parent, refused) h
        | inl fine ↦
            rw (on, fresh, parent, fine)
              (passed-IsCollected (skipped n reason (length c.all_ids)) c refl fresh parent refl h)
      ]
    ]
  ]
]

append_measurement-IsCollected :
    (k : Option Text) (m : ℕ) (c : TraceCollector)
    → IsCollected c
    → IsCollected (append_measurement k m c).0
unfolding append_measurement
append_measurement-IsCollected none m c h = h
append_measurement-IsCollected (some k) m c h = elim (Bool-cases (not c.collecting)) [
  | inl off ↦ rw off h
  | inr on ↦ elim (Option-cases (Table.lookup k c.open_stages)) [
    | inl nothing ↦ rw (on, nothing) h
    | inr (o, found) ↦ rw (on, found) (measured-IsCollected k m o c found h)
  ]
]

finish_stage-IsCollected :
    (p : Patterns) (k : Option Text) (outcome : OutcomeCode) (error : Option ContractErrorDetail)
    (now : Stamp) (now_ns : ℕ) (c : TraceCollector)
    → IsCollected c
    → IsCollected (finish_stage p k outcome error now now_ns c).0
unfolding finish_stage
finish_stage-IsCollected p none outcome error now now_ns c h = h
finish_stage-IsCollected p (some k) outcome error now now_ns c h =
    elim (Bool-cases (not c.collecting)) [
      | inl off ↦ rw off h
      | inr on ↦ elim (Option-cases (Table.lookup k c.open_stages)) [
        | inl nothing ↦ rw (on, nothing) h
        | inr (o, found) ↦ elim (Bool-cases (ltb now_ns o.started_ns)) [
          | inl back ↦ rw (on, found, back) h
          | inr forth ↦ elim (Bool-cases (lifecycle p (finished o now now_ns outcome error))) [
            | inr refused ↦ rw (on, found, forth, refused) h
            | inl fine ↦
                let placed = (h.open_placed k o found).1 in
                rw (on, found, forth, fine)
                  (closed-IsCollected k o (finished o now now_ns outcome error) c found refl
                    (record {
                      at_its_place = placed.at_its_place;
                      parent_before = placed.parent_before;
                      fallback_before = placed.fallback_before;
                    })
                    h)
          ]
        ]
      ]
    ]

call-IsCollected :
    (p : Patterns) (x : Call) (c : TraceCollector) → IsCollected c → IsCollected (call p x c)
unfolding call
call-IsCollected p (Call.start n now now_ns) c h = start_stage-IsCollected p n now now_ns c h
call-IsCollected p (Call.measure k m) c h = append_measurement-IsCollected k m c h
call-IsCollected p (Call.finish k outcome error now now_ns) c h =
    finish_stage-IsCollected p k outcome error now now_ns c h
call-IsCollected p (Call.skip n reason) c h = skip_stage-IsCollected p n reason c h

pub run-IsCollected :
    (p : Patterns) (calls : List Call) (c : TraceCollector)
    → IsCollected c
    → IsCollected (run p calls c)
unfolding run
run-IsCollected p [] c h = h
run-IsCollected p (x ∷ calls) c h = run-IsCollected p calls (call p x c) (call-IsCollected p x c h)

pub new_collector-IsCollected : (collecting : Bool) → IsCollected (new_collector collecting)
new_collector-IsCollected collecting = record {
  stages_placed = tt;
  open_placed = λ k o e. absurd (cc);
  complete = λ k l. absurd (cc);
  separate = λ k l. absurd (cc);
  inside = λ k l. absurd (cc);
  ids_distinct = refl;
  open_unique = tt;
}
