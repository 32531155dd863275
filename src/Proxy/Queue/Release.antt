-- ===== src/Proxy/Queue/Release.antt =====
-- The release of prepared tasks to the ready queue: `_mark_prepare_done_and_flush`,
-- `_flush_prepared_to_ready` and `_release_prepared_task_to_ready` of `QueueManager`. All of a
-- flush runs under the instance's flush lock, and nothing else writes these entries, so it is one
-- step on the record below. The clock is a function of the released number: each is released once.
pub mod Count
pub mod Loop
pub mod InOrder
pub mod Bypass
pub mod Fair
pub mod Conserve
use cache_route.Common.{
  ℕ, zero, suc, ◌+◌, ◌-◌, ◌≡◌, refl, Bool, true, false, not, ◌&&◌, Option, none, some, List, [],
  ◌∷◌, ◌++◌, map, ◌==◌, ltb, leb, if◌then◌else◌, or_default, length, keep,
}
use cache_route.Common.Dict.{Dict, lookup, insert, erase}
use cache_route.Common.Text.{Text, codes, text_eq, strip, lower}
use cache_route.Common.Floats.{Floats}
use cache_route.Proxy.Queue.Task.{ProxyTask, ReleaseTrace}
use cache_route.Proxy.Queue.Predict.{Predictors}
use cache_route.Proxy.Queue.Reservation.{Reservations, reserve}

pub data ReleasePolicy : Type 0 where
  ordered text_bypass : ReleasePolicy

-- What the clock reads when a number is released: `_now_ms()`, and then `time.time()`.
pub record Clock (R : Type 0) : Type 0 where
  pub now_ms : ℕ → ℕ
  pub now_s : ℕ → R

-- The manager's settings, and what it calls.
pub record Settings (R : Type 0) : Type 0 where
  pub policy : ReleasePolicy
  pub text_bypass_max_per_flush : ℕ
  pub predictors : Predictors R
  pub clock : Clock R

-- The entries of one instance. `ready` holds all that was put into the ready queue, oldest first.
pub record ReleaseState (R : Type 0) : Type 0 where
  pub buffer : Dict (ProxyTask R)
  pub released : List ℕ
  pub next_release : ℕ
  pub ready : List (ProxyTask R)
  pub reservations : Reservations R

-- `n in xs`
abbrev pub elem : ℕ → List ℕ → Bool
elem n [] = false
elem n (x ∷ xs) = if n == x then true else elem n xs

-- `set.add`
abbrev pub add_seq : ℕ → List ℕ → List ℕ
add_seq n xs = if elem n xs then xs else n ∷ xs

-- `while next_seq in released: next_seq += 1`
unfoldable pub skip_released : ℕ → List ℕ → ℕ → ℕ
skip_released zero released n = n
skip_released (suc fuel) released n = elim (elem n released) [
  | true ↦ skip_released fuel released (suc n)
  | false ↦ n
]

-- `int(x or d)` of a missing number: zero counts as missing.
abbrev pub or_nonzero : Option ℕ → ℕ → ℕ
or_nonzero none d = d
or_nonzero (some n) d = if n == 0 then d else n

-- The time in the buffer, if the task's own preparation has a time.
abbrev pub buffer_wait : ℕ → Option ℕ → Option ℕ
buffer_wait now none = none
buffer_wait now (some done) = if done == 0 then none else some (now - done)

module _ {R : Type 0} where
  -- The injection type is "text". (Here a missing one counts as "text", an empty one does not.)
  abbrev pub is_text : ProxyTask R → Bool
  is_text t = text_eq (lower (strip (or_default t.injection_type (codes "text")))) (codes "text")

  -- `min(text_candidates, key=…)` over the entries with a number above `n`.
  abbrev pub smaller_seq : ℕ × ProxyTask R → Option (ℕ × ProxyTask R) → ℕ × ProxyTask R
  smaller_seq e none = e
  smaller_seq e (some e') = if leb e.0 e'.0 then e else e'

  abbrev pub first_text : ℕ → Dict (ProxyTask R) → Option (ℕ × ProxyTask R)
  first_text n [] = none
  first_text n ((seq, t) ∷ buf) =
      let rest = first_text n buf in
      if ltb n seq && is_text t then some (smaller_seq (seq, t) rest) else rest

module _ {R : Type 0} ⦃f : Floats R⦄ (c : Settings R) where
  -- `_release_prepared_task_to_ready`
  unfoldable pub release : ℕ → ProxyTask R → Bool → Option ℕ → ReleaseState R → ReleaseState R
  release seq t bypass blocked_seq s =
      let buffer = erase seq s.buffer in
      let ready_enqueue_ms = c.clock.now_ms seq in
      let full_prepare_ms = ready_enqueue_ms - or_nonzero t.proxy_enqueue_ms ready_enqueue_ms in
      let trace : ReleaseTrace = record {
        release_seq = seq;
        bypass = bypass;
        blocked_seq = if bypass then blocked_seq else none;
        prepared_buffer_size = length buffer;
        ready_enqueue_ms = ready_enqueue_ms;
        actual_prepare_total_ms = full_prepare_ms;
        prepare_buffer_wait_ms = buffer_wait ready_enqueue_ms t.prepare_self_done_ms;
      } in
      let t' = record t { released = some trace; know_prepare_ms = full_prepare_ms } in
      let (t'', reservations) =
        reserve c.predictors t' ready_enqueue_ms (c.clock.now_s seq) s.reservations in
      record s {
        buffer = buffer;
        released = add_seq seq s.released;
        ready = s.ready ++ t'' ∷ [];
        reservations = reservations;
      }

  -- The `while True` loop of `_flush_prepared_to_ready`, with its `next_seq` and `bypass_count`.
  unfoldable pub flush_from : ℕ → ℕ → ℕ → ReleaseState R → ReleaseState R
  flush_from zero bypass_count next_seq s = record s { next_release = next_seq }
  flush_from (suc fuel) bypass_count next_seq s =
      let n = skip_released (length s.released) s.released next_seq in
      elim (lookup n s.buffer) [
        | some t ↦ flush_from fuel bypass_count (suc n) (release n t false none s)
        | none ↦ elim (first_text n s.buffer) [
          | none ↦ record s { next_release = n }
          | some (seq, t) ↦ elim c.policy [
            | ordered ↦ record s { next_release = n }
            | text_bypass ↦ elim (leb c.text_bypass_max_per_flush bypass_count) [
              | true ↦ record s { next_release = n }
              | false ↦ flush_from fuel (suc bypass_count) n (release seq t true (some n) s)
            ]
          ]
        ]
      ]

  -- Every round but the last releases a task of the buffer.
  unfoldable pub flush : ReleaseState R → ReleaseState R
  unfolding flush_from skip_released
  flush s = flush_from (suc (length s.buffer)) 0 s.next_release s

  -- `_mark_prepare_done_and_flush`
  unfoldable pub mark_prepare_done : ProxyTask R → ReleaseState R → ReleaseState R
  mark_prepare_done t s = flush (record s { buffer = insert t.prepare_seq t s.buffer })

  -- The preparations of an instance, in the order in which they are done.
  unfoldable pub arrive_all : List (ProxyTask R) → ReleaseState R → ReleaseState R
  arrive_all [] s = s
  arrive_all (t ∷ ts) s = arrive_all ts (mark_prepare_done t s)

-- `_ensure_instance_reservation_state` of a new instance.
abbrev pub start : {R : Type 0} → Reservations R → ReleaseState R
start r = record { buffer = []; released = []; next_release = 1; ready = []; reservations = r }
