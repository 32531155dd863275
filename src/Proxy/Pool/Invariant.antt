-- ===== src/Proxy/Pool/Invariant.antt =====
-- What holds of the pool's dict after any calls.
use cache_route.Common.{ℕ, ◌≡◌, refl, some, List, [], ◌∷◌, arith, Option-cases, inl, inr}
use cache_route.Common.Dict.{
  IsDict, Entries, insert-IsDict, erase-IsDict, insert-Entries, erase-Entries, lookup-Entries,
}
use cache_route.Proxy.Pool.{
  InstancePool, InstanceResource, InstanceInfo, Registration, Beat, begin_request, end_request,
  report_resource_snapshot, remove, upsert, heartbeat, get, store, refresh, reported_mismatch,
}
use cache_route.Proxy.Pool.Calls.{Call, step, run}
use mathlib.Core.Option

module _ {R C : Type 0} (fingerprint : C → ℕ) where
  -- The key of an entry is its instance's id, a fingerprint on record is that of the capabilities
  -- on record, and the counter is set.
  pub record IsSound (k : ℕ) (it : InstanceInfo R C) : Type 0 where
    pub keyed : k ≡ it.instance_id
    pub printed : it.capability_fingerprint ≡ Option.map fingerprint it.capabilities
    pub counted : (n : ℕ) × (it.load.inflight ≡ some n)

  -- Besides, no key is listed twice.
  pub record IsValid (p : InstancePool R C) : Type 0 where
    pub distinct : IsDict p.items
    pub sound : Entries IsSound p.items

  store-IsValid :
      (p : InstancePool R C) (i : ℕ) (it : InstanceInfo R C)
      → IsValid p
      → IsSound i it
      → IsValid (store p i it)
  store-IsValid p i it v s = record {
    distinct = insert-IsDict i it p.items v.distinct;
    sound = insert-Entries IsSound i it p.items s v.sound;
  }

  -- An update of a known instance keeps the pool valid if it keeps the instance sound.
  pub got-IsSound :
      (p : InstancePool R C) (i : ℕ) (it : InstanceInfo R C)
      → IsValid p
      → get p i ≡ some it
      → IsSound i it
  got-IsSound p i it v e = lookup-Entries IsSound i it p.items v.sound e

  begin_request-IsValid : (i : ℕ) (p : InstancePool R C) → IsValid p → IsValid (begin_request i p).1
  unfolding begin_request
  begin_request-IsValid i p v = elim (Option-cases (get p i)) [
    | inl e ↦ rw (e, begin_request) v
    | inr (it, e) ↦
        let s = got-IsSound p i it v e in
        rw (e, begin_request)
          (store-IsValid p i _ v
            (record { keyed = s.keyed; printed = s.printed; counted = (_, refl) }))
  ]

  end_request-IsValid : (i : ℕ) (p : InstancePool R C) → IsValid p → IsValid (end_request i p).1
  unfolding end_request
  end_request-IsValid i p v = elim (Option-cases (get p i)) [
    | inl e ↦ rw (e, end_request) v
    | inr (it, e) ↦
        let s = got-IsSound p i it v e in
        rw (e, end_request)
          (store-IsValid p i _ v
            (record { keyed = s.keyed; printed = s.printed; counted = (_, refl) }))
  ]

  report_resource_snapshot-IsValid :
      (i : ℕ) (parse : ℕ → InstanceResource R) (now : ℕ) (p : InstancePool R C)
      → IsValid p
      → IsValid (report_resource_snapshot i parse now p).1
  unfolding report_resource_snapshot
  report_resource_snapshot-IsValid i parse now p v = elim (Option-cases (get p i)) [
    | inl e ↦ rw (e, report_resource_snapshot) v
    | inr (it, e) ↦
        let s = got-IsSound p i it v e in
        rw (e, report_resource_snapshot)
          (store-IsValid p i _ v
            (record { keyed = s.keyed; printed = s.printed; counted = s.counted }))
  ]

  remove-IsValid : (i : ℕ) (p : InstancePool R C) → IsValid p → IsValid (remove i p).1
  unfolding remove
  remove-IsValid i p v = record {
    distinct = erase-IsDict i p.items v.distinct;
    sound = erase-Entries IsSound i p.items v.sound;
  }

  upsert-IsValid :
      (r : Registration R C) (now : ℕ) (p : InstancePool R C)
      → IsValid p
      → IsValid (upsert fingerprint r now p).1
  unfolding upsert
  upsert-IsValid r now p v = elim (Option-cases (get p r.instance_id)) [
    | inl e ↦
        rw (e, upsert)
          (store-IsValid p r.instance_id _ v
            (record { keyed = refl; printed = refl; counted = (_, refl) }))
    | inr (it, e) ↦
        let s = got-IsSound p r.instance_id it v e in
        rw (e, upsert)
          (store-IsValid p r.instance_id _ v
            (record { keyed = s.keyed; printed = refl; counted = (_, refl) }))
  ]

  refresh-IsSound :
      (b : Beat R C) (now k : ℕ) (it : InstanceInfo R C)
      → IsSound k it
      → IsSound k (refresh fingerprint b now it)
  unfolding refresh
  refresh-IsSound b now k it s = record {
    keyed = s.keyed;
    printed = ground (arith, s.printed);
    counted = s.counted;
  }

  pub heartbeat-IsValid :
      (b : Beat R C) (now : ℕ) (p : InstancePool R C)
      → IsValid p
      → IsValid (heartbeat fingerprint b now p).1
  unfolding heartbeat
  heartbeat-IsValid b now p v = elim (Option-cases (get p b.instance_id)) [
    | inl e ↦ rw (e, heartbeat) v
    | inr (it, e) ↦ elim (Option-cases (reported_mismatch b it)) [
      | inr (value, m) ↦ rw (e, m, heartbeat) v
      | inl m ↦
          rw (e, m, heartbeat)
            (store-IsValid p b.instance_id _ v
              (refresh-IsSound b now b.instance_id it (got-IsSound p b.instance_id it v e)))
    ]
  ]

  step-IsValid : (p : InstancePool R C) (c : Call R C) → IsValid p → IsValid (step fingerprint p c)
  unfolding step
  step-IsValid p (Call.begins i) v = begin_request-IsValid i p v
  step-IsValid p (Call.ends i) v = end_request-IsValid i p v
  step-IsValid p (Call.reports i parse now) v = report_resource_snapshot-IsValid i parse now p v
  step-IsValid p (Call.removes i) v = remove-IsValid i p v
  step-IsValid p (Call.registers r now) v = upsert-IsValid r now p v
  step-IsValid p (Call.beats b now) v = heartbeat-IsValid b now p v

  -- Whatever calls come, ids stay distinct and under their own keys, every counter stays set, and
  -- the fingerprint on record stays that of the capabilities on record.
  pub run-IsValid :
      (p : InstancePool R C) (cs : List (Call R C)) → IsValid p → IsValid (run fingerprint p cs)
  unfolding run
  run-IsValid p [] v = v
  run-IsValid p (c ∷ cs) v = run-IsValid (step fingerprint p c) cs (step-IsValid p c v)
