-- ===== src/Cacheroute/CacheOperation/Transition.antt =====
-- When a transition succeeds, and what it gives.
use cache_route.Common.{ℕ, zero, suc, ◌≡◌, ◌≢◌, ◌≤◌, ◌↔◌, ◌⊎◌, refl, ap, sym, ◌∙◌, true, arith}
use cache_route.Cacheroute.State.{Stamp, Result}
use cache_route.Cacheroute.CacheOperation.{
  CacheOperationTask, CacheOperationState, code, among, transitions, attempts, is_consistent,
  validated, transition,
}

decode : ℕ → CacheOperationState
decode zero = CacheOperationState.pending
decode (suc zero) = CacheOperationState.running
decode (suc (suc zero)) = CacheOperationState.retry_wait
decode (suc (suc (suc zero))) = CacheOperationState.succeeded
decode (suc (suc (suc (suc zero)))) = CacheOperationState.failed
decode n = CacheOperationState.cancelled

decode-code : (s : CacheOperationState) → decode (code s) ≡ s
unfolding decode
decode-code CacheOperationState.pending = refl
decode-code CacheOperationState.running = refl
decode-code CacheOperationState.retry_wait = refl
decode-code CacheOperationState.succeeded = refl
decode-code CacheOperationState.failed = refl
decode-code CacheOperationState.cancelled = refl

pub code_injective : (s s' : CacheOperationState) → code s ≡ code s' → s ≡ s'
code_injective s s' h = sym (decode-code s) ∙ ap decode h ∙ decode-code s'

-- The task after a transition to another state.
abbrev pub moved_to : CacheOperationState → Stamp → CacheOperationTask → CacheOperationTask
moved_to requested stamp t = record t {
  state = requested;
  attempt = attempts requested t.attempt;
  updated_at = stamp;
}

-- A later time in UTC keeps a task consistent.
pub moved_to-is_consistent :
    (requested : CacheOperationState) (stamp : Stamp) (t : CacheOperationTask)
    → is_consistent t ≡ true
    → stamp.utc ≡ true
    → t.updated_at.time ≤ stamp.time
    → is_consistent (moved_to requested stamp t) ≡ true
unfolding is_consistent
moved_to-is_consistent requested stamp t h utc later = ground arith

-- The request is for another state, the table has it, and the time is in UTC and not before the
-- last one.
abbrev pub IsMove : CacheOperationState → Stamp → CacheOperationTask → Type 0
IsMove requested stamp t =
    (requested ≢ t.state)
    × (among requested (transitions t.state) ≡ true)
    × (stamp.utc ≡ true)
    × (t.updated_at.time ≤ stamp.time)

-- A transition of a consistent task succeeds exactly when the task is in the requested state
-- already, and then it is unchanged, or the move is in the table and its time is in UTC and not
-- before the last one, and then the task is in the requested state at that time, with one attempt
-- more if that state is running, and again consistent.
pub transition-IsMove :
    (requested : CacheOperationState) (stamp : Stamp) (t t' : CacheOperationTask)
    → is_consistent t ≡ true
    → (transition requested stamp t ≡ Result.ok t') ↔ (
        ((requested ≡ t.state) × (t' ≡ t))
        ⊎ (IsMove requested stamp t
            × (t' ≡ moved_to requested stamp t)
            × (is_consistent t' ≡ true)))
unfolding transition validated
transition-IsMove requested stamp t t' h = ground (
  arith,
  code_injective requested t.state,
  ap code {x = requested} {y = t.state},
  moved_to-is_consistent requested stamp t h,
)
