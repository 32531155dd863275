-- ===== src/Proxy/Queue/Release/InOrder.antt =====
-- Under the "ordered" policy the ready queue gets the tasks in the order in which they came in,
-- in whatever order their preparations are done.
use cache_route.Common.{
  ℕ, suc, ◌+◌, ◌≡◌, ◌≤◌, refl, ap, sym, subst, ◌∙◌, Bool, true, false, Option, none, List, [], ◌∷◌,
  ◌++◌, ◌==◌, map, if◌then◌else◌, length, arith, ◌⊎◌, inl, inr, Bool-cases,
}
use mathlib.Core.Path.{ap₂}
use cache_route.Common.Dict.{lookup, insert, IsDict, insert-IsDict}
use cache_route.Common.Floats.{Floats}
use cache_route.Proxy.Queue.Task.{ProxyTask}
use cache_route.Proxy.Queue.Reservation.{Reservations}
use cache_route.Proxy.Queue.Release.{
  ReleaseState, Settings, ReleasePolicy, release, elem, mark_prepare_done, arrive_all, start,
}
use cache_route.Proxy.Queue.Release.Count.{
  count, up_to, count-up_to, count-up_to_above, count-up_to_le, count-keys_absent, lookup_of_count,
  count-keys-insert,
}
use cache_route.Proxy.Queue.Release.Conserve.{seqs, total, release-seqs, flush_conserves}
use cache_route.Proxy.Queue.Release.Loop.{Rule, flush-Ends, skip_released-stay}

module _ {R : Type 0} where
  -- What came out is 1, 2, …, k, the next number is k + 1, and only such numbers are released.
  pub record InStep (n : ℕ) (s : ReleaseState R) : Type 0 where
    pub k : ℕ
    pub next : n ≡ suc k
    pub in_order : seqs s ≡ up_to k
    pub below : (i : ℕ) → elem i s.released ≡ true → i ≤ k

  InStep-fresh : (n : ℕ) (s : ReleaseState R) → InStep n s → elem n s.released ≡ false
  InStep-fresh n s h = elim (Bool-cases (elem n s.released)) [
    | inl e ↦ absurd (omega (arith, h.below n e, h.next))
    | inr e ↦ e
  ]

module _ {R : Type 0} ⦃f : Floats R⦄ (c : Settings R) where
  elem-release :
      (i seq : ℕ) (t : ProxyTask R) (bypass : Bool) (blocked : Option ℕ) (s : ReleaseState R)
      → elem i (release c seq t bypass blocked s).released ≡ true
      → (i ≡ seq) ⊎ (elem i s.released ≡ true)
  unfolding release
  elem-release i seq t bypass blocked s h = ground arith

  release-InStep :
      (n : ℕ) (s : ReleaseState R) (t : ProxyTask R)
      → InStep n s
      → InStep (suc n) (release c n t false none s)
  release-InStep n s t h = record {
    k = suc h.k;
    next = ap suc h.next;
    in_order = release-seqs c n t false none s ∙ ap₂ (λ xs i. xs ++ i ∷ []) h.in_order h.next;
    below = λ i e. elim (elem-release i n t false none s e) [
      | inl same ↦ omega (arith, same, h.next)
      | inr old ↦ omega (arith, h.below i old)
    ];
  }

  InStep-Rule : c.policy ≡ ReleasePolicy.ordered → Rule c (λ b n s. InStep n s)
  InStep-Rule o = record {
    skip = λ b n s h.
        subst (λ m. InStep m s)
          (sym (skip_released-stay (length s.released) s.released n (InStep-fresh n s h))) h;
    stop = λ b n m s h. record { k = h.k; next = h.next; in_order = h.in_order; below = h.below };
    in_turn = λ b n s t fresh e h. release-InStep n s t h;
    bypass = λ b n s seq t by free fresh absent e above text h. absurd (cc);
  }

  -- A state between two flushes; `got` says how often each number has arrived.
  record Settled (got : ℕ → ℕ) (s : ReleaseState R) : Type 0 where
    dict : IsDict s.buffer
    in_step : InStep s.next_release s
    same : (i : ℕ) → total i s ≡ got i
    blocked : lookup s.next_release s.buffer ≡ none

  start-Settled : (r : Reservations R) → Settled (λ i. 0) (start r)
  start-Settled r = record {
    dict = tt;
    in_step = record { k = 0; next = refl; in_order = refl; below = λ i e. absurd (cc) };
    same = λ i. refl;
    blocked = refl;
  }

  mark_prepare_done-Settled :
      (t : ProxyTask R) (got : ℕ → ℕ) (s : ReleaseState R)
      → c.policy ≡ ReleasePolicy.ordered
      → got t.prepare_seq ≡ 0
      → Settled got s
      → Settled (λ i. got i + (if i == t.prepare_seq then 1 else 0)) (mark_prepare_done c t s)
  unfolding mark_prepare_done
  mark_prepare_done-Settled t got s o new h =
      let s' : ReleaseState R = record s { buffer = insert t.prepare_seq t s.buffer } in
      let absent = lookup_of_count t.prepare_seq s.buffer (omega (arith, h.same t.prepare_seq)) in
      let dict = insert-IsDict t.prepare_seq t s.buffer h.dict in
      let ends =
        flush-Ends c (λ b n s. InStep n s) s' (InStep-Rule o) dict
          (record {
            k = h.in_step.k;
            next = h.in_step.next;
            in_order = h.in_step.in_order;
            below = h.in_step.below;
          }) in
      let (dict', same, fresh, blocked) = flush_conserves c s' dict in
      record {
        dict = dict';
        in_step = ends.holds;
        same = λ i.
            omega (arith, same i, h.same i, count-keys-insert i t.prepare_seq t s.buffer absent);
        blocked = blocked;
      }

  arrive_all-Settled :
      (ts : List (ProxyTask R)) (got : ℕ → ℕ) (s : ReleaseState R)
      → c.policy ≡ ReleasePolicy.ordered
      → ((i : ℕ) → got i + count i (map (λ t. t.prepare_seq) ts) ≤ 1)
      → Settled got s
      → Settled (λ i. got i + count i (map (λ t. t.prepare_seq) ts)) (arrive_all c ts s)
  unfolding arrive_all
  arrive_all-Settled [] got s o once h = record {
    dict = h.dict;
    in_step = h.in_step;
    same = λ i. omega (arith, h.same i);
    blocked = h.blocked;
  }
  arrive_all-Settled (t ∷ ts) got s o once h =
      let fresh : got t.prepare_seq ≡ 0 = ground (arith, once t.prepare_seq) in
      let rest =
        arrive_all-Settled ts (λ i. got i + (if i == t.prepare_seq then 1 else 0))
          (mark_prepare_done c t s) o (λ i. omega (arith, once i))
          (mark_prepare_done-Settled t got s o fresh h) in
      record {
        dict = rest.dict;
        in_step = rest.in_step;
        same = λ i. omega (arith, rest.same i);
        blocked = rest.blocked;
      }

  -- What the ready queue got after some arrivals.
  abbrev pub ready_after : List (ProxyTask R) → Reservations R → List ℕ
  ready_after ts r = seqs (arrive_all c ts (start r))

  -- Under the ordered policy, when preparations are done in any order, each number at most once, the
  -- ready queue has got 1, 2, …, k in this order, where k + 1 has not arrived; and every number that arrived is once in
  -- the ready queue or the buffer.
  pub ready_prefix :
      (ts : List (ProxyTask R)) (r : Reservations R)
      → c.policy ≡ ReleasePolicy.ordered
      → ((i : ℕ) → count i (map (λ t. t.prepare_seq) ts) ≤ 1)
      → (k : ℕ) × (ready_after ts r ≡ up_to k)
        × (count (suc k) (map (λ t. t.prepare_seq) ts) ≡ 0)
        × ((i : ℕ) → total i (arrive_all c ts (start r)) ≡ count i (map (λ t. t.prepare_seq) ts))
  ready_prefix ts r o once =
      let h =
        arrive_all-Settled ts (λ i. 0) (start r) o (λ i. omega (arith, once i)) (start-Settled r) in
      let k = h.in_step.k in
      let s = arrive_all c ts (start r) in
      (
        k,
        h.in_step.in_order,
        omega (
          arith,
          h.same (suc k),
          ap (count (suc k)) h.in_step.in_order,
          count-up_to_above (suc k) k,
          count-keys_absent (suc k) s.buffer
              (subst (λ n. lookup n s.buffer ≡ none) h.in_step.next h.blocked),
        ),
        λ i. omega (arith, h.same i),
      )

  -- Under the ordered policy, when the arrivals are 1, …, m in any order, each once, the ready queue
  -- has got them all, in their order.
  pub ready_complete :
      (m : ℕ) (ts : List (ProxyTask R)) (r : Reservations R)
      → c.policy ≡ ReleasePolicy.ordered
      → ((i : ℕ) → count i (map (λ t. t.prepare_seq) ts) ≡ count i (up_to m))
      → ready_after ts r ≡ up_to m
  ready_complete m ts r o all =
      let (k, in_order, missing, same) =
        ready_prefix ts r o (λ i. omega (arith, all i, count-up_to_le i m)) in
      let out : count k (ready_after ts r) ≡ count k (up_to k) = ap (count k) in_order in
      let k≡m : k ≡ m = ground (
        arith,
        missing,
        all (suc k),
        all k,
        same k,
        out,
        count-up_to (suc k) m,
        count-up_to_above k m,
        count-up_to k k,
      ) in
      in_order ∙ ap up_to k≡m
