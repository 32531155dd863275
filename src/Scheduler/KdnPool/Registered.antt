-- ===== src/Scheduler/KdnPool/Registered.antt =====
-- What the pool knows of a KDN through any requests, and when it offers it.
use cache_route.Common.{
  ℕ, ◌≡◌, ◌≢◌, ◌↔◌, refl, ap, sym, subst, ◌∙◌, Bool, true, false, not, ◌&&◌, Option, some, List, [],
  ◌∷◌, ◌==◌, or_default, Option-cases, Bool-cases, inl, inr, arith, Member, Member-keep_in,
  Member-keep_out,
}
use cache_route.Common.Dict.{lookup-insert, lookup-erase_ne, Member-values_of_lookup}
use cache_route.Common.Floats.{Floats}
use cache_route.Scheduler.KdnPool.{
  KdnPool, KdnInfo, KdnLoad, KdnRegisterRequest, KdnHeartbeatRequest, get_kdn, store_kdn,
  upsert_kdn, heartbeat_kdn, remove_kdn, is_alive_kdn, list_kdns, kdn_register, kdn_request_load,
  kdn_heartbeat,
}

pub data Request (R : Type 0) : Type 0 where
  registers : KdnRegisterRequest R → R → Request R
  beats : KdnHeartbeatRequest R → R → Request R
  unregisters : ℕ → Request R

module _ {R : Type 0} ⦃f : Floats R⦄ where
  unfoldable pub serve : KdnPool R → List (Request R) → KdnPool R
  serve p [] = p
  serve p (Request.registers req now ∷ rs) = serve (kdn_register req now p) rs
  serve p (Request.beats req now ∷ rs) = serve (kdn_heartbeat req now p).1 rs
  serve p (Request.unregisters i ∷ rs) = serve (remove_kdn i p) rs

  -- No request unregisters the KDN.
  abbrev pub stays_registered : ℕ → List (Request R) → Bool
  stays_registered i [] = true
  stays_registered i (Request.unregisters j ∷ rs) = not (i == j) && stays_registered i rs
  stays_registered i (r ∷ rs) = stays_registered i rs

  -- The KDN is in the pool, and was first registered at that time.
  abbrev pub IsSince : ℕ → R → KdnPool R → Type 0
  IsSince i start p = (info : KdnInfo R) × (get_kdn p i ≡ some info) × (info.registered_at ≡ start)

  store_kdn-IsSince :
      (i j : ℕ) (start : R) (info : KdnInfo R) (p : KdnPool R)
      → (i ≡ j → info.registered_at ≡ start)
      → IsSince i start p
      → IsSince i start (store_kdn p j info)
  store_kdn-IsSince i j start info p same (old, e, since) = elim (Bool-cases (i == j)) [
    | inl e' ↦ (info, grind (arith, lookup-insert), same (ground arith))
    | inr e' ↦ (old, grind (arith, lookup-insert), since)
  ]

  first_same :
      (i j : ℕ) (start : R) (p : KdnPool R) (info : KdnInfo R)
      → IsSince i start p
      → get_kdn p j ≡ some info
      → i ≡ j
      → info.registered_at ≡ start
  first_same i j start p info (old, e, since) e' same =
      let found : get_kdn p i ≡ some info = subst (λ k. get_kdn p k ≡ some info) (sym same) e' in
      let eq : info ≡ old = ground arith in ap (λ k. k.registered_at) eq ∙ since

  upsert_kdn-IsSince :
      (i : ℕ) (start : R) (info : KdnInfo R) (now : R) (p : KdnPool R)
      → IsSince i start p
      → IsSince i start (upsert_kdn info now p)
  unfolding upsert_kdn
  upsert_kdn-IsSince i start info now p h = elim (Option-cases (get_kdn p info.kdn_id)) [
    | inl e ↦
        rw (e, upsert_kdn)
          (store_kdn-IsSince i info.kdn_id start _ p
            (λ same. absurd (ground (arith, e, h.1, ap (get_kdn p) same))) h)
    | inr (old, e) ↦
        rw (e, upsert_kdn)
          (store_kdn-IsSince i info.kdn_id start _ p (first_same i info.kdn_id start p old h e) h)
  ]

  heartbeat_kdn-IsSince :
      (i j : ℕ) (start : R) (load : Option (KdnLoad R)) (now : R) (p : KdnPool R)
      → IsSince i start p
      → IsSince i start (heartbeat_kdn j load now p).1
  unfolding heartbeat_kdn
  heartbeat_kdn-IsSince i j start load now p h = elim (Option-cases (get_kdn p j)) [
    | inl e ↦ rw (e, heartbeat_kdn) h
    | inr (old, e) ↦
        rw (e, heartbeat_kdn) (store_kdn-IsSince i j start _ p (first_same i j start p old h e) h)
  ]

  remove_kdn-IsSince :
      (i j : ℕ) (start : R) (p : KdnPool R)
      → i ≢ j
      → IsSince i start p
      → IsSince i start (remove_kdn j p)
  unfolding remove_kdn
  remove_kdn-IsSince i j start p other (info, e, since) =
      (info, lookup-erase_ne i j p.kdns other ∙ e, since)

  -- As long as no request unregisters a KDN, it stays in the pool with the time of its first
  -- registration, whatever registers again or reports.
  pub serve-IsSince :
      (i : ℕ) (start : R) (rs : List (Request R)) (p : KdnPool R)
      → stays_registered i rs ≡ true
      → IsSince i start p
      → IsSince i start (serve p rs)
  unfolding serve kdn_register kdn_heartbeat
  serve-IsSince i start [] p k h = h
  serve-IsSince i start (Request.registers req now ∷ rs) p k h =
      serve-IsSince i start rs _ k (upsert_kdn-IsSince i start _ now p h)
  serve-IsSince i start (Request.beats req now ∷ rs) p k h =
      serve-IsSince i start rs _ k
        (heartbeat_kdn-IsSince i req.kdn_id start (kdn_request_load req) now p h)
  serve-IsSince i start (Request.unregisters j ∷ rs) p k h =
      serve-IsSince i start rs _ (ground arith) (remove_kdn-IsSince i j start p (ground arith) h)

  -- No request is about the KDN.
  abbrev pub elsewhere : ℕ → List (Request R) → Bool
  elsewhere i [] = true
  elsewhere i (Request.registers req now ∷ rs) = not (i == req.kdn_id) && elsewhere i rs
  elsewhere i (Request.beats req now ∷ rs) = not (i == req.kdn_id) && elsewhere i rs
  elsewhere i (Request.unregisters j ∷ rs) = not (i == j) && elsewhere i rs

  -- The same is known of the KDN, and for as long.
  abbrev IsUnchanged : ℕ → KdnPool R → KdnPool R → Type 0
  IsUnchanged i p p' = (get_kdn p' i ≡ get_kdn p i) × (p'.ttl_s ≡ p.ttl_s)

  heartbeat_kdn-IsUnchanged :
      (i j : ℕ) (load : Option (KdnLoad R)) (now : R) (p : KdnPool R)
      → i ≢ j
      → IsUnchanged i p (heartbeat_kdn j load now p).1
  unfolding heartbeat_kdn
  heartbeat_kdn-IsUnchanged i j load now p other = elim (Option-cases (get_kdn p j)) [
    | inl e ↦ rw (e, heartbeat_kdn) (refl, refl)
    | inr (old, e) ↦ rw (e, heartbeat_kdn) (grind (arith, lookup-insert), refl)
  ]

  serve-IsUnchanged :
      (i : ℕ) (rs : List (Request R)) (p : KdnPool R)
      → elsewhere i rs ≡ true
      → IsUnchanged i p (serve p rs)
  unfolding serve kdn_register kdn_heartbeat upsert_kdn remove_kdn
  serve-IsUnchanged i [] p h = (refl, refl)
  serve-IsUnchanged i (Request.registers req now ∷ rs) p h =
      let (known, ttl) = serve-IsUnchanged i rs (kdn_register req now p) (ground arith) in
      let other : i ≢ req.kdn_id = ground arith in (known ∙ grind (arith, lookup-insert), ttl)
  serve-IsUnchanged i (Request.beats req now ∷ rs) p h =
      let (known, ttl) = serve-IsUnchanged i rs (kdn_heartbeat req now p).1 (ground arith) in
      let (same, ttl') =
        heartbeat_kdn-IsUnchanged i req.kdn_id (kdn_request_load req) now p (ground arith) in
      (known ∙ same, ttl ∙ ttl')
  serve-IsUnchanged i (Request.unregisters j ∷ rs) p h =
      let (known, ttl) = serve-IsUnchanged i rs (remove_kdn j p) (ground arith) in
      (known ∙ lookup-erase_ne i j p.kdns (ground arith), ttl)

  -- A heartbeat of a registered KDN is accepted. From then on, through any requests about other
  -- KDNs, the KDN that the pool has, with the load that the heartbeat brought, if it brought any, is
  -- offered exactly as long as the time since the heartbeat is within the time to live.
  pub kdn_heartbeat-list_kdns :
      (req : KdnHeartbeatRequest R) (now later : R) (info : KdnInfo R) (p : KdnPool R)
      (rs : List (Request R))
      → get_kdn p req.kdn_id ≡ some info
      → elsewhere req.kdn_id rs ≡ true
      → let (ok, p') = kdn_heartbeat req now p in
        (ok ≡ true)
        × (info' : KdnInfo R) × (get_kdn (serve p' rs) req.kdn_id ≡ some info')
        × (info'.load ≡ or_default (kdn_request_load req) info.load)
        × (Member info' (list_kdns false later (serve p' rs))
            ↔ (f.le (f.sub later now) (f.of_ℕ p.ttl_s) ≡ true))
  unfolding kdn_heartbeat heartbeat_kdn list_kdns
  kdn_heartbeat-list_kdns req now later info p rs e others =
      let info' : KdnInfo R = record info {
        last_seen_at = now;
        load = or_default (kdn_request_load req) info.load;
      } in
      let p1 = store_kdn p req.kdn_id info' in
      let (known, ttl) = serve-IsUnchanged req.kdn_id rs p1 others in
      let found : get_kdn (serve p1 rs) req.kdn_id ≡ some info' =
        known ∙ grind (arith, lookup-insert) in
      let p2 = serve p1 rs in
      rw (e, kdn_heartbeat, heartbeat_kdn)
        (
          refl,
          info',
          found,
          refl,
          (
            (λ m.
                subst (λ n. f.le (f.sub later now) (f.of_ℕ n) ≡ true) ttl
                  (Member-keep_out (is_alive_kdn p2.ttl_s later) info' _ m).1),
            (λ alive.
                Member-keep_in (is_alive_kdn p2.ttl_s later) info' _
                  (Member-values_of_lookup req.kdn_id info' p2.kdns found)
                  (subst (λ n. f.le (f.sub later now) (f.of_ℕ n) ≡ true) (sym ttl) alive)),
          ),
        )
