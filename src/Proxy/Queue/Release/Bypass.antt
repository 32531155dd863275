-- ===== src/Proxy/Queue/Release/Bypass.antt =====
-- What either policy keeps, "text_bypass" too: who may overtake, and how often in one flush.
use cache_route.Common.{
  ℕ, suc, ◌+◌, ◌-◌, ◌≡◌, ◌≤◌, ◌<◌, refl, sym, subst, ◌∙◌, Bool, true, false, Option, none, some,
  List, [], ◌∷◌, ◌++◌, ◌==◌, All, if◌then◌else◌, length, arith, ◌≢◌,
}
use cache_route.Common.Dict.{insert, IsDict, insert-IsDict}
use cache_route.Common.Floats.{Floats}
use cache_route.Proxy.Queue.Task.{ProxyTask}
use cache_route.Proxy.Queue.Reservation.{Reservations, reserve}
use cache_route.Proxy.Queue.Release.{
  ReleaseState, Settings, release, flush, elem, is_text, skip_released, mark_prepare_done,
  arrive_all, start,
}
use cache_route.Proxy.Queue.Release.Count.{up_to}
use cache_route.Proxy.Queue.Release.Conserve.{seq_of, seqs, release-seqs, flush_conserves}
use cache_route.Proxy.Queue.Release.Loop.{Rule, flush-Ends, skip_released-elem}
use cache_route.Proxy.Queue.Release.Fair.{
  All-up_to, elem-append, elem-append_last, elem-same, elem-add_seq, AllInTurn-append,
  bypasses-append, bypassed, bypasses, InTurn, AllInTurn, IsFair,
}

module _ {R : Type 0} ⦃f : Floats R⦄ (c : Settings R) where
  -- The task as it goes into the ready queue.
  release-ready :
      (seq : ℕ) (t : ProxyTask R) (bypass : Bool) (blocked : Option ℕ) (s : ReleaseState R)
      → (t' : ProxyTask R) × ((release c seq t bypass blocked s).ready ≡ s.ready ++ t' ∷ [])
        × (seq_of t' ≡ seq)
        × (bypassed t' ≡ bypass)
        × (is_text t' ≡ is_text t)
        × ((i : ℕ)
            → elem i (release c seq t bypass blocked s).released
              ≡ (if i == seq then true else elem i s.released))
  unfolding release reserve
  release-ready seq t bypass blocked s =
      (_, refl, refl, refl, refl, λ i. elem-add_seq i seq s.released)

  release-out :
      (n seq i : ℕ) (t : ProxyTask R) (bypass : Bool) (blocked : Option ℕ) (s : ReleaseState R)
      → IsFair n s
      → elem i (release c seq t bypass blocked s).released ≡ true
      → elem i (seqs (release c seq t bypass blocked s)) ≡ true
  release-out n seq i t bypass blocked s h e =
      let (t', ready, number, past, text, added) = release-ready seq t bypass blocked s in
      rw (release-seqs c seq t bypass blocked s) (
        ground (
          arith,
          e,
          added i,
          h.out i,
          elem-append i (seqs s) (seq ∷ []),
          elem-append_last seq (seqs s),
          elem-same i seq (seqs s ++ seq ∷ []),
        ))

  release-IsFair :
      (n n' seq : ℕ) (t : ProxyTask R) (bypass : Bool) (blocked : Option ℕ) (s : ReleaseState R)
      → IsFair n s
      → ((i : ℕ) → i < n' → i ≢ seq → i < n)
      → ((t' : ProxyTask R)
          → seq_of t' ≡ seq
          → bypassed t' ≡ bypass
          → is_text t' ≡ is_text t
          → InTurn (seqs s) t')
      → IsFair n' (release c seq t bypass blocked s)
  release-IsFair n n' seq t bypass blocked s h low turn =
      let (t', ready, number, past, text, added) = release-ready seq t bypass blocked s in
      record {
        passed = λ i p l. ground (arith, added i, h.passed i p, low i l);
        out = λ i e. release-out n seq i t bypass blocked s h e;
        in_turn =
            subst (AllInTurn []) (sym ready)
              (AllInTurn-append [] s.ready t' h.in_turn (turn t' number past text));
      }

  release-bypasses :
      (seq : ℕ) (t : ProxyTask R) (bypass : Bool) (blocked : Option ℕ) (s : ReleaseState R)
      → bypasses (release c seq t bypass blocked s).ready
        ≡ bypasses s.ready + (if bypass then 1 else 0)
  release-bypasses seq t bypass blocked s =
      let (t', ready, number, past, text, added) = release-ready seq t bypass blocked s in
      rw (ready, bypasses-append s.ready t', past)

  -- What a flush from `s` keeps.
  abbrev Fair : ReleaseState R → ℕ → ℕ → ReleaseState R → Type 0
  Fair s b n s' =
      IsFair n s' × (b ≤ c.text_bypass_max_per_flush) × (bypasses s'.ready ≤ bypasses s.ready + b)

  Fair-in_turn :
      (s : ReleaseState R) (b n : ℕ) (s' : ReleaseState R) (t : ProxyTask R)
      → Fair s b n s'
      → Fair s b (suc n) (release c n t false none s')
  Fair-in_turn s b n s' t (h, few, most) =
      let lower : All (λ i. elem i (seqs s') ≡ true) (up_to (n - 1)) =
        All-up_to _ (n - 1) (λ i p l. h.out i (h.passed i p (omega arith))) in
      (
        release-IsFair n (suc n) n t false none s' h (λ i l d. ground arith)
            (λ t' number past text. rw (past, number) lower),
        few,
        omega (arith, most, release-bypasses n t false none s'),
      )

  Fair-bypass :
      (s : ReleaseState R) (b n : ℕ) (s' : ReleaseState R) (seq : ℕ) (t : ProxyTask R)
      → b < c.text_bypass_max_per_flush
      → is_text t ≡ true
      → Fair s b n s'
      → Fair s (suc b) n (release c seq t true (some n) s')
  Fair-bypass s b n s' seq t free is (h, few, most) = (
    release-IsFair n n seq t true (some n) s' h (λ i l d. l)
        (λ t' number past text. rw past (text ∙ is)),
    omega arith,
    omega (arith, most, release-bypasses seq t true (some n) s'),
  )

  Fair-skip :
      (s : ReleaseState R) (b n : ℕ) (s' : ReleaseState R)
      → Fair s b n s'
      → Fair s b (skip_released (length s'.released) s'.released n) s'
  Fair-skip s b n s' (h, few, most) = (
    record {
      passed = λ i p l.
          ground (arith, h.passed i p, skip_released-elem (length s'.released) s'.released n i);
      out = h.out;
      in_turn = h.in_turn;
    },
    few,
    most,
  )

  Fair-Rule : (s : ReleaseState R) → Rule c (Fair s)
  Fair-Rule s = record {
    skip = λ b n s' h. Fair-skip s b n s' h;
    stop = λ b n m s' (h, few, most).
        (record { passed = h.passed; out = h.out; in_turn = h.in_turn }, few, most);
    in_turn = λ b n s' t fresh e h. Fair-in_turn s b n s' t h;
    bypass =
        λ b n s' seq t o free fresh absent e above text h. Fair-bypass s b n s' seq t free text h;
  }

  -- Under either policy a flush keeps that every number below the next one is released, that
  -- what is released is in the ready queue, that there only text tasks were released past another,
  -- and that any other task stands behind all lower numbers; and it adds at most
  -- `text_bypass_max_per_flush` tasks that were released past another.
  pub flush-IsFair :
      (s : ReleaseState R)
      → IsDict s.buffer
      → IsFair s.next_release s
      → let s' = flush c s in
        IsFair s'.next_release s'
        × (bypasses s'.ready ≤ bypasses s.ready + c.text_bypass_max_per_flush)
  flush-IsFair s u h =
      let ends = flush-Ends c (Fair s) s (Fair-Rule s) u (h, omega arith, omega arith) in
      (ends.holds.0, omega (arith, ends.holds.1))

  arrive_all-keeps :
      (ts : List (ProxyTask R)) (s : ReleaseState R)
      → IsDict s.buffer
      → IsFair s.next_release s
      → let s' = arrive_all c ts s in IsFair s'.next_release s'
  unfolding arrive_all mark_prepare_done
  arrive_all-keeps [] s u h = h
  arrive_all-keeps (t ∷ ts) s u h =
      let s' : ReleaseState R = record s { buffer = insert t.prepare_seq t s.buffer } in
      let dict = insert-IsDict t.prepare_seq t s.buffer u in
      let fair =
        flush-IsFair s' dict (record { passed = h.passed; out = h.out; in_turn = h.in_turn }) in
      arrive_all-keeps ts (flush c s') (flush_conserves c s' dict).0 fair.0

  -- After any preparations of a new instance, in any order and under either policy, every number
  -- below the next one is released, what is released is in the ready queue, and there only text
  -- tasks were released past another, and any other task stands behind all lower numbers.
  pub arrive_all-IsFair :
      (ts : List (ProxyTask R)) (r : Reservations R)
      → let s = arrive_all c ts (start r) in IsFair s.next_release s
  arrive_all-IsFair ts r =
      arrive_all-keeps ts (start r) tt
        (record { passed = λ i p l. absurd (omega arith); out = λ i e. absurd (cc); in_turn = tt })
