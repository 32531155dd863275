-- ===== src/Proxy/Pool/Lifecycle.antt =====
-- The in-flight counter that the proxy keeps by `begin_request` and `end_request`.
use cache_route.Common.{
  ℕ, ◌+◌, ◌-◌, ◌≤◌, ◌≡◌, ◌≢◌, Option, some, List, [], ◌∷◌, ◌==◌, if◌then◌else◌, or_default, arith,
  ◌∙◌, ap, take, suc,
}
use cache_route.Common.Dict.{lookup-insert, lookup-erase_ne}
use cache_route.Proxy.Pool.{
  InstancePool, InstanceResource, Registration, Beat, begin_request, end_request,
  report_resource_snapshot, remove, upsert, heartbeat, get,
}
use cache_route.Proxy.Pool.Calls.{Call, step, run}
use mathlib.Core.Option

module _ {R C : Type 0} where
  -- The counter of a registered instance.
  abbrev pub inflight : ℕ → InstancePool R C → Option ℕ
  inflight i p = Option.map (λ it. or_default it.load.inflight 0) (get p i)

  abbrev pub begun : ℕ → List (Call R C) → ℕ
  begun i [] = 0
  begun i (Call.begins j ∷ cs) = (if i == j then 1 else 0) + begun i cs
  begun i (c ∷ cs) = begun i cs

  abbrev pub ended : ℕ → List (Call R C) → ℕ
  ended i [] = 0
  ended i (Call.ends j ∷ cs) = (if i == j then 1 else 0) + ended i cs
  ended i (c ∷ cs) = ended i cs

  abbrev pub IsKept : ℕ → List (Call R C) → Type 0
  IsKept i [] = Unit
  IsKept i (Call.removes j ∷ cs) = (i ≢ j) × IsKept i cs
  IsKept i (c ∷ cs) = IsKept i cs

  IsKept-cons :
      (i : ℕ) (c : Call R C) (cs : List (Call R C))
      → IsKept i (c ∷ cs)
      → IsKept i (c ∷ []) × IsKept i cs
  IsKept-cons i (Call.removes j) cs k = ((k.0, tt), k.1)
  IsKept-cons i (Call.begins j) cs k = (tt, k)
  IsKept-cons i (Call.ends j) cs k = (tt, k)
  IsKept-cons i (Call.reports j parse now) cs k = (tt, k)
  IsKept-cons i (Call.registers r now) cs k = (tt, k)
  IsKept-cons i (Call.beats b now) cs k = (tt, k)

  abbrev after : ℕ → Call R C → ℕ → ℕ
  after i (Call.begins j) n = if i == j then n + 1 else n
  after i (Call.ends j) n = if i == j then n - 1 else n
  after i c n = n

  begin_request-inflight :
      (i j n : ℕ) (p : InstancePool R C)
      → inflight i p ≡ some n
      → inflight i (begin_request j p).1 ≡ some (if i == j then n + 1 else n)
  unfolding begin_request
  begin_request-inflight i j n p h = grind (arith, lookup-insert)

  end_request-inflight :
      (i j n : ℕ) (p : InstancePool R C)
      → inflight i p ≡ some n
      → inflight i (end_request j p).1 ≡ some (if i == j then n - 1 else n)
  unfolding end_request
  end_request-inflight i j n p h = grind (arith, lookup-insert)

  report_resource_snapshot-inflight :
      (i j n : ℕ) (parse : ℕ → InstanceResource R) (now : ℕ) (p : InstancePool R C)
      → inflight i p ≡ some n
      → inflight i (report_resource_snapshot j parse now p).1 ≡ some n
  unfolding report_resource_snapshot
  report_resource_snapshot-inflight i j n parse now p h = grind (arith, lookup-insert)

  remove-inflight :
      (i j n : ℕ) (p : InstancePool R C)
      → i ≢ j
      → inflight i p ≡ some n
      → inflight i (remove j p).1 ≡ some n
  unfolding remove
  remove-inflight i j n p ne h = ground (arith, lookup-erase_ne i j p.items)

module _ {R C : Type 0} (fingerprint : C → ℕ) where
  upsert-inflight :
      (r : Registration R C) (i now n : ℕ) (p : InstancePool R C)
      → inflight i p ≡ some n
      → inflight i (upsert fingerprint r now p).1 ≡ some n
  unfolding upsert
  upsert-inflight r i now n p h = grind (arith, lookup-insert)

  heartbeat-inflight :
      (b : Beat R C) (i now n : ℕ) (p : InstancePool R C)
      → inflight i p ≡ some n
      → inflight i (heartbeat fingerprint b now p).1 ≡ some n
  unfolding heartbeat
  heartbeat-inflight b i now n p h = grind (arith, lookup-insert)

  step-inflight :
      (i n : ℕ) (p : InstancePool R C) (c : Call R C)
      → IsKept i (c ∷ [])
      → inflight i p ≡ some n
      → inflight i (step fingerprint p c) ≡ some (after i c n)
  unfolding step
  step-inflight i n p (Call.begins j) k h = begin_request-inflight i j n p h
  step-inflight i n p (Call.ends j) k h = end_request-inflight i j n p h
  step-inflight i n p (Call.reports j parse now) k h =
      report_resource_snapshot-inflight i j n parse now p h
  step-inflight i n p (Call.removes j) k h = remove-inflight i j n p k.0 h
  step-inflight i n p (Call.registers r now) k h = upsert-inflight r i now n p h
  step-inflight i n p (Call.beats b now) k h = heartbeat-inflight b i now n p h

  -- The counter as a fold over the calls.
  abbrev count : ℕ → ℕ → List (Call R C) → ℕ
  count i n [] = n
  count i n (c ∷ cs) = count i (after i c n) cs

  run-count :
      (i n : ℕ) (p : InstancePool R C) (cs : List (Call R C))
      → IsKept i cs
      → inflight i p ≡ some n
      → inflight i (run fingerprint p cs) ≡ some (count i n cs)
  unfolding run
  run-count i n p [] k h = h
  run-count i n p (c ∷ cs) k h =
      let (now, later) = IsKept-cons i c cs k in
      run-count i (after i c n) (step fingerprint p c) cs later (step-inflight i n p c now h)

  -- No call takes the counter below what was begun less what was ended.
  count_lower : (i n : ℕ) (cs : List (Call R C)) → n + begun i cs ≤ count i n cs + ended i cs
  count_lower i n [] = omega arith
  count_lower i n (Call.begins j ∷ cs) =
      ground (arith, count_lower i (if i == j then n + 1 else n) cs)
  count_lower i n (Call.ends j ∷ cs) =
      ground (arith, count_lower i (if i == j then n - 1 else n) cs)
  count_lower i n (c ∷ cs) = count_lower i n cs

  -- At no time have more requests ended than had begun.
  abbrev pub IsBracketed : ℕ → ℕ → List (Call R C) → Type 0
  IsBracketed i n cs = (k : ℕ) → ended i (take k cs) ≤ n + begun i (take k cs)

  count_exact :
      (i n : ℕ) (cs : List (Call R C))
      → IsBracketed i n cs
      → count i n cs + ended i cs ≡ n + begun i cs
  count_exact i n [] b = omega arith
  count_exact i n (Call.begins j ∷ cs) b =
      ground
        (arith, count_exact i (if i == j then n + 1 else n) cs (λ k. ground (arith, b (suc k))))
  count_exact i n (Call.ends j ∷ cs) b = ground (
    arith,
    b 1,
    count_exact i (if i == j then n - 1 else n) cs (λ k. ground (arith, b (suc k), b 1)),
  )
  count_exact i n (c ∷ cs) b = count_exact i n cs (λ k. b (suc k))

  -- Whatever calls come, on this instance and on others, the counter of an instance that stays
  -- registered is never below the requests begun less those ended.
  pub run-inflight_lower :
      (i n : ℕ) (p : InstancePool R C) (cs : List (Call R C))
      → IsKept i cs
      → inflight i p ≡ some n
      → (m : ℕ) × (inflight i (run fingerprint p cs) ≡ some m) × (n + begun i cs ≤ m + ended i cs)
  run-inflight_lower i n p cs k h = (count i n cs, run-count i n p cs k h, count_lower i n cs)

  -- While an instance stays registered, that is, through any calls of which none removes it, and if
  -- at no time more requests have ended than had begun besides those that its counter had counted,
  -- the counter has grown by exactly the requests begun less those ended: no further registration of
  -- the instance and no heartbeat disturbs it.
  pub run-inflight :
      (i n : ℕ) (p : InstancePool R C) (cs : List (Call R C))
      → IsKept i cs
      → IsBracketed i n cs
      → inflight i p ≡ some n
      → inflight i (run fingerprint p cs) ≡ some (n + begun i cs - ended i cs)
  run-inflight i n p cs k b h =
      run-count i n p cs k h ∙ ap some (omega (arith, count_exact i n cs b))
