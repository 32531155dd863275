-- ===== src/Proxy/Pool/Admission.antt =====
-- What the pool's report says of its instances: the counts add up, and the admission state means
-- what its name says.
use cache_route.Common.{
  ℕ, ◌+◌, ◌*◌, ◌/◌, ◌≤◌, ◌≡◌, ◌≢◌, ◌↔◌, refl, true, false, Option, some, List, [], ◌∷◌, All, keep,
  length, length-keep, length-keep_mono, arith, leb→le, le→leb,
}
use cache_route.Common.Dict.{values}
use cache_route.Common.Floats.{Floats}
use cache_route.Proxy.Pool.{InstanceInfo, InstancePool, list_instances, is_alive}
use cache_route.Proxy.Pool.Report.{
  Admission, AdmissionCounts, has_resource, is_alive_ms, split_alive, count_admissions,
  admission_of, pool_state, build_report,
}

module _ {R C : Type 0} where
  -- The instance reports its resources, and says that it rejects requests.
  abbrev pub IsRejecting : InstanceInfo R C → Type 0
  IsRejecting it =
      (has_resource it ≡ true)
      × (admission_of it.resource.admission_state ≡ some Admission.rejecting)

  -- It reports its resources, and says neither that it is degraded nor that it rejects.
  abbrev pub IsFit : InstanceInfo R C → Type 0
  IsFit it =
      (has_resource it ≡ true)
      × (admission_of it.resource.admission_state ≢ some Admission.rejecting)
      × (admission_of it.resource.admission_state ≢ some Admission.degraded)

  abbrev counts : List (InstanceInfo R C) → AdmissionCounts
  counts alive = count_admissions (keep has_resource alive)

  counts_le :
      (reporting : List (InstanceInfo R C))
      → let c = count_admissions reporting in
        c.accepting + c.degraded + c.rejecting ≤ length reporting
  unfolding count_admissions
  counts_le [] = omega arith
  counts_le (it ∷ items) = ground (arith, counts_le items)

  rejecting_le : (alive : List (InstanceInfo R C)) → (counts alive).rejecting ≤ length alive
  rejecting_le alive =
      omega (arith, counts_le (keep has_resource alive), length-keep has_resource alive)

  rejecting-All :
      (alive : List (InstanceInfo R C))
      → All IsRejecting alive
      → ((counts alive).rejecting ≡ length alive)
        × (length (keep has_resource alive) ≡ length alive)
  unfolding count_admissions
  rejecting-All [] h = (refl, refl)
  rejecting-All (it ∷ items) h = ground (arith, rejecting-All items)

  All-IsRejecting :
      (alive : List (InstanceInfo R C))
      → (counts alive).rejecting ≡ length alive
      → All IsRejecting alive
  unfolding count_admissions
  All-IsRejecting [] h = tt
  All-IsRejecting (it ∷ items) h = ground (arith, All-IsRejecting items, rejecting_le items)

  fit-All :
      (alive : List (InstanceInfo R C))
      → All IsFit alive
      → ((counts alive).rejecting ≡ 0)
        × ((counts alive).degraded ≡ 0)
        × (length (keep has_resource alive) ≡ length alive)
  unfolding count_admissions
  fit-All [] h = (refl, refl, refl)
  fit-All (it ∷ items) h = ground (arith, fit-All items)

  All-IsFit :
      (alive : List (InstanceInfo R C))
      → (counts alive).rejecting ≡ 0
      → (counts alive).degraded ≡ 0
      → length (keep has_resource alive) ≡ length alive
      → All IsFit alive
  unfolding count_admissions
  All-IsFit [] r d k = tt
  All-IsFit (it ∷ items) r d k = ground (arith, All-IsFit items, length-keep has_resource items)

  abbrev pub alive_at : ℕ → InstancePool R C → List (InstanceInfo R C)
  alive_at now_ms p = keep (is_alive_ms p.ttl_s now_ms) (values p.items)

  split_alive_lem :
      (ttl_s now_ms : ℕ) (items : List (InstanceInfo R C))
      → ((split_alive ttl_s now_ms items).0 ≡ keep (is_alive_ms ttl_s now_ms) items)
        × ((split_alive ttl_s now_ms items).1 + length (split_alive ttl_s now_ms items).0
            ≡ length items)
  unfolding split_alive
  split_alive_lem ttl_s now_ms [] = (refl, omega arith)
  split_alive_lem ttl_s now_ms (it ∷ items) = ground (arith, split_alive_lem ttl_s now_ms items)

  pool_state-rejecting :
      (alive : List (InstanceInfo R C))
      → (pool_state alive (keep has_resource alive) (counts alive) ≡ Admission.rejecting)
        ↔ All IsRejecting alive
  unfolding pool_state
  pool_state-rejecting [] = (λ h. tt, λ h. refl)
  pool_state-rejecting (it ∷ items) = (
    λ h. All-IsRejecting (it ∷ items) (ground (arith, length-keep has_resource items)),
    λ h. ground (arith, rejecting-All (it ∷ items) h),
  )

  pool_state-accepting :
      (alive : List (InstanceInfo R C))
      → (pool_state alive (keep has_resource alive) (counts alive) ≡ Admission.accepting)
        ↔ ((alive ≢ []) × All IsFit alive)
  unfolding pool_state
  pool_state-accepting [] = (λ h. absurd (cc), λ h. absurd (h.0 refl))
  pool_state-accepting (it ∷ items) = (
    λ h. (
      (λ e. cc),
      All-IsFit (it ∷ items) (ground (arith, counts_le (keep has_resource (it ∷ items))))
          (ground arith) (ground (arith, length-keep has_resource items)),
    ),
    λ h. ground (arith, fit-All (it ∷ items) h.1),
  )

  alive_le :
      (ttl_s now_ms : ℕ) (items : List (InstanceInfo R C))
      → length (keep (is_alive_ms ttl_s now_ms) items)
        ≤ length (keep (is_alive ttl_s (now_ms / 1000)) items)
  alive_le ttl_s now_ms items =
      length-keep_mono _ _ items (λ it h. le→leb _ _ (omega (arith, leb→le _ _ h)))

  alive_eq :
      (ttl_s now : ℕ) (items : List (InstanceInfo R C))
      → length (keep (is_alive_ms ttl_s (now * 1000)) items)
        ≡ length (keep (is_alive ttl_s now) items)
  alive_eq ttl_s now [] = refl
  alive_eq ttl_s now (it ∷ items) = ground (arith, alive_eq ttl_s now items)

module _ {R C : Type 0} ⦃f : Floats R⦄ where
  -- In every report the alive and the stale instances make up all, those with and those without a
  -- resource report make up the alive ones, and no more admission states are counted than there
  -- are reports.
  pub build_report-counts :
      (proxy_id capacity : ℕ) (prepare ready : Option ℕ) (now_ms : ℕ) (p : InstancePool R C)
      → let n = (build_report proxy_id capacity prepare ready now_ms p).instances in
        (n.total ≡ n.alive + n.stale)
        × (n.alive ≡ n.with_resource + n.missing_resource)
        × (n.admission.accepting + n.admission.degraded + n.admission.rejecting ≤ n.with_resource)
  unfolding build_report
  build_report-counts proxy_id capacity prepare ready now_ms p =
      let (alive, stale) = split_alive p.ttl_s now_ms (values p.items) in
      (
        omega (arith, (split_alive_lem p.ttl_s now_ms (values p.items)).1),
        omega (arith, length-keep has_resource alive),
        counts_le (keep has_resource alive),
      )

  -- The pool is reported to reject exactly when each of its alive instances reports that it does
  -- (so when none is alive), to accept exactly when some instance is alive and each alive one
  -- reports and is neither degraded nor rejecting, and otherwise to be degraded.
  pub pool_admission_state_lem :
      (proxy_id capacity : ℕ) (prepare ready : Option ℕ) (now_ms : ℕ) (p : InstancePool R C)
      → let state = (build_report proxy_id capacity prepare ready now_ms p).pool_admission_state in
        ((state ≡ Admission.rejecting) ↔ All IsRejecting (alive_at now_ms p))
        × ((state ≡ Admission.accepting)
            ↔ ((alive_at now_ms p ≢ []) × All IsFit (alive_at now_ms p)))
  unfolding build_report
  pool_admission_state_lem proxy_id capacity prepare ready now_ms p =
      rw ((split_alive_lem p.ttl_s now_ms (values p.items)).0)
        (pool_state-rejecting (alive_at now_ms p), pool_state-accepting (alive_at now_ms p))

  -- At a whole second the report's number of alive instances is the number of those that `list`
  -- gives, and at a fraction of a second it is at most the number that `list` gives at that second.
  pub alive-list_instances :
      (proxy_id capacity : ℕ) (prepare ready : Option ℕ) (now_ms : ℕ) (p : InstancePool R C)
      → ((build_report proxy_id capacity prepare ready now_ms p).instances.alive
          ≤ length (list_instances false (now_ms / 1000) p))
        × ((build_report proxy_id capacity prepare ready (now_ms / 1000 * 1000) p).instances.alive
            ≡ length (list_instances false (now_ms / 1000) p))
  unfolding build_report list_instances
  alive-list_instances proxy_id capacity prepare ready now_ms p =
      rw
        (
          (split_alive_lem p.ttl_s now_ms (values p.items)).0,
          (split_alive_lem p.ttl_s (now_ms / 1000 * 1000) (values p.items)).0,
        )
        (
          alive_le p.ttl_s now_ms (values p.items),
          alive_eq p.ttl_s (now_ms / 1000) (values p.items),
        )
