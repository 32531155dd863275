-- ===== src/Proxy/Pool/Liveness.antt =====
-- Which instances `list` offers to the selection strategies, and what a heartbeat does to that.
use cache_route.Common.{
  ℕ, ◌+◌, ◌≤◌, ◌≡◌, refl, some, arith, true, false, Option-cases, inl, inr, ◌↔◌, Member,
  Member-keep_in, Member-keep_out, leb→le, le→leb, subst, sym,
}
use cache_route.Common.Dict.{
  Entries-map, Member-values_of_lookup, lookup_of_Member-values, lookup-insert,
}
use cache_route.Proxy.Pool.{
  InstancePool, InstanceInfo, Beat, heartbeat, get, list_instances, is_alive, refresh,
}
use cache_route.Proxy.Pool.Invariant.{IsValid, IsSound, got-IsSound, heartbeat-IsValid}

module _ {R C : Type 0} (fingerprint : C → ℕ) where
  -- In a valid pool `list` holds exactly the instances that are in the pool under their own ids
  -- and were last seen no longer than the time to live ago.
  pub Member-list_instances :
      (it : InstanceInfo R C) (now : ℕ) (p : InstancePool R C)
      → IsValid fingerprint p
      → Member it (list_instances false now p)
        ↔ ((get p it.instance_id ≡ some it) × (now ≤ p.ttl_s + it.last_seen_at))
  unfolding list_instances
  Member-list_instances it now p v = (
    out,
    λ h.
        Member-keep_in (is_alive p.ttl_s now) it _
          (Member-values_of_lookup it.instance_id it p.items h.0) (le→leb _ _ h.1),
  )
    where
      out :
          Member it (list_instances false now p)
          → (get p it.instance_id ≡ some it) × (now ≤ p.ttl_s + it.last_seen_at)
      out m =
          let (found, fresh) = Member-keep_out (is_alive p.ttl_s now) it _ m in
          (
            lookup_of_Member-values (λ w. w.instance_id) it p.items v.distinct
                (Entries-map (IsSound fingerprint) (λ k w. k ≡ w.instance_id) p.items
                  (λ k w s. s.keyed) v.sound)
                found,
            leb→le _ _ fresh,
          )

  -- A heartbeat that is refused changes nothing in the pool.
  heartbeat_refused :
      (b : Beat R C) (now : ℕ) (p : InstancePool R C)
      → (heartbeat fingerprint b now p).0.ok ≡ false
      → (heartbeat fingerprint b now p).1 ≡ p
  unfolding heartbeat
  heartbeat_refused b now p h = ground arith

  heartbeat_accepted :
      (b : Beat R C) (now : ℕ) (p : InstancePool R C)
      → (heartbeat fingerprint b now p).0.ok ≡ true
      → (it : InstanceInfo R C) × (get (heartbeat fingerprint b now p).1 b.instance_id ≡ some it)
        × (it.last_seen_at ≡ now)
  unfolding heartbeat
  heartbeat_accepted b now p h = elim (Option-cases (get p b.instance_id)) [
    | inl e ↦ absurd (ground arith)
    | inr (it, e) ↦
        (refresh fingerprint b now it, grind (arith, lookup-insert), unfold refresh in refl)
  ]

  ttl_s-heartbeat :
      (b : Beat R C) (now : ℕ) (p : InstancePool R C)
      → (heartbeat fingerprint b now p).1.ttl_s ≡ p.ttl_s
  unfolding heartbeat
  ttl_s-heartbeat b now p = ground arith

  -- After an accepted heartbeat, and until another call on it, the instance is offered exactly
  -- until the time to live has passed.
  pub heartbeat-list_instances :
      (b : Beat R C) (now later : ℕ) (p : InstancePool R C)
      → IsValid fingerprint p
      → (heartbeat fingerprint b now p).0.ok ≡ true
      → ((it : InstanceInfo R C) × Member it
            (list_instances false later (heartbeat fingerprint b now p).1)
          × (it.instance_id ≡ b.instance_id))
        ↔ (later ≤ p.ttl_s + now)
  heartbeat-list_instances b now later p v h = (out, back)
    where
      p' : InstancePool R C
      p' = (heartbeat fingerprint b now p).1

      valid : IsValid fingerprint p'
      valid = heartbeat-IsValid fingerprint b now p v

      ttl : p'.ttl_s ≡ p.ttl_s
      ttl = ttl_s-heartbeat b now p

      out :
          ((it : InstanceInfo R C) × Member it (list_instances false later p')
            × (it.instance_id ≡ b.instance_id))
          → later ≤ p.ttl_s + now
      out (it, m, e) =
          let (found, fresh) = (Member-list_instances it later p' valid).0 m in
          let (it', known, seen) = heartbeat_accepted b now p h in
          ground (arith, found, fresh, known, seen, ttl)

      back :
          later ≤ p.ttl_s + now
          → (it : InstanceInfo R C) × Member it (list_instances false later p')
            × (it.instance_id ≡ b.instance_id)
      back le =
          let (it, known, seen) = heartbeat_accepted b now p h in
          let keyed : b.instance_id ≡ it.instance_id =
            (got-IsSound fingerprint p' b.instance_id it valid known).keyed in
          (
            it,
            (Member-list_instances it later p' valid).1
                (subst (λ k. get p' k ≡ some it) keyed known, omega (arith, ttl, seen, le)),
            sym keyed,
          )
