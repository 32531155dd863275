-- ===== src/Scheduler/ProxyPool/Registered.antt =====
-- What the pool remembers of a proxy until it is removed.
use cache_route.Common.{
  ℕ, ◌≡◌, ◌≢◌, refl, ◌∙◌, ap, sym, subst, Bool, true, not, ◌&&◌, some, List, [], ◌∷◌, ◌==◌, is_some,
  Option-cases, inl, inr, arith, Bool-cases,
}
use cache_route.Common.Dict.{lookup-insert, lookup-erase_ne}
use cache_route.Common.Int.{ℤ}
use cache_route.Scheduler.ProxyPool.{
  ProxyPool, ProxyInfo, Beat, get, store, keep_report, refresh, upsert, heartbeat, remove,
  inflight_delta,
}
use cache_route.Scheduler.ProxyPool.Calls.{Call, step, run}

module _ {R P : Type 0} where
  -- No call removes the proxy.
  abbrev pub keeps : ℕ → List (Call R P) → Bool
  keeps i [] = true
  keeps i (Call.removes j ∷ cs) = not (i == j) && keeps i cs
  keeps i (c ∷ cs) = keeps i cs

  -- What came of `info`: the same first registration, and a report if it had one.
  pub record Remembers (info info' : ProxyInfo R P) : Type 0 where
    pub same_start : info'.registered_at ≡ info.registered_at
    pub reported : is_some info.pool_resource ≡ true → is_some info'.pool_resource ≡ true

  -- The proxy is in the pool, and `info` is remembered there.
  abbrev pub IsRemembered : ℕ → ProxyInfo R P → ProxyPool R P → Type 0
  IsRemembered i info p = (info' : ProxyInfo R P) × (get p i ≡ some info') × Remembers info info'

  Remembers-trans : (a b c : ProxyInfo R P) → Remembers a b → Remembers b c → Remembers a c
  Remembers-trans a b c h h' = record {
    same_start = h'.same_start ∙ h.same_start;
    reported = λ e. h'.reported (h.reported e);
  }

  store-IsRemembered :
      (i j : ℕ) (info old new : ProxyInfo R P) (p : ProxyPool R P)
      → get p j ≡ some old
      → Remembers old new
      → IsRemembered i info p
      → IsRemembered i info (store p j new)
  store-IsRemembered i j info old new p e h (info', e', h') = elim (Bool-cases (i == j)) [
    | inl same ↦
        let i≡j : i ≡ j = ground arith in
        let found : get p i ≡ some old = subst (λ k. get p k ≡ some old) (sym i≡j) e in
        let info'≡old : info' ≡ old = ground arith in
        (
          new,
          grind (arith, lookup-insert),
          Remembers-trans info old new (subst (Remembers info) info'≡old h') h,
        )
    | inr other ↦ (info', grind (arith, lookup-insert), h')
  ]

  keep_report-Remembers :
      (old info : ProxyInfo R P)
      → Remembers old (keep_report old (record info { registered_at = old.registered_at }))
  keep_report-Remembers old info = elim (Option-cases info.pool_resource) [
    | inl e ↦ rw e (record { same_start = refl; reported = λ h. h })
    | inr (report, e) ↦ rw e (record { same_start = refl; reported = λ h. ap is_some e })
  ]

  refresh-Remembers :
      (b : Beat R P) (now : R) (info : ProxyInfo R P) → Remembers info (refresh b now info)
  refresh-Remembers b now info = elim (Option-cases b.pool_resource) [
    | inl e ↦ rw e (record { same_start = refl; reported = λ h. h })
    | inr (report, e) ↦ rw e (record { same_start = refl; reported = λ h. refl })
  ]

  upsert-IsRemembered :
      (i : ℕ) (info new : ProxyInfo R P) (p : ProxyPool R P)
      → IsRemembered i info p
      → IsRemembered i info (upsert new p)
  unfolding upsert
  upsert-IsRemembered i info new p (info', e', h') = elim (Option-cases (get p new.proxy_id)) [
    | inl e ↦ rw (e, upsert) (info', grind (arith, lookup-insert), h')
    | inr (old, e) ↦
        rw (e, upsert)
          (store-IsRemembered i new.proxy_id info old _ p e (keep_report-Remembers old new)
            (info', e', h'))
  ]

  heartbeat-IsRemembered :
      (i : ℕ) (info : ProxyInfo R P) (b : Beat R P) (now : R) (p : ProxyPool R P)
      → IsRemembered i info p
      → IsRemembered i info (heartbeat b now p).1
  unfolding heartbeat
  heartbeat-IsRemembered i info b now p h = elim (Option-cases (get p b.proxy_id)) [
    | inl e ↦ rw (e, heartbeat) h
    | inr (old, e) ↦
        rw (e, heartbeat)
          (store-IsRemembered i b.proxy_id info old _ p e (refresh-Remembers b now old) h)
  ]

  inflight_delta-IsRemembered :
      (i j : ℕ) (delta : ℤ) (info : ProxyInfo R P) (p : ProxyPool R P)
      → IsRemembered i info p
      → IsRemembered i info (inflight_delta j delta p).1
  unfolding inflight_delta
  inflight_delta-IsRemembered i j delta info p h = elim (Option-cases (get p j)) [
    | inl e ↦ rw (e, inflight_delta) h
    | inr (old, e) ↦
        rw (e, inflight_delta)
          (store-IsRemembered i j info old _ p e (record { same_start = refl; reported = λ h'. h' })
            h)
  ]

  remove-IsRemembered :
      (i j : ℕ) (info : ProxyInfo R P) (p : ProxyPool R P)
      → i ≢ j
      → IsRemembered i info p
      → IsRemembered i info (remove j p)
  unfolding remove
  remove-IsRemembered i j info p other (info', e', h') =
      (info', lookup-erase_ne i j p.proxies other ∙ e', h')

  -- As long as no call removes a proxy, it stays in the pool with the time of its first
  -- registration, whatever registers again, reports or is counted, and once it has a report on its
  -- instances it is never without one.
  pub run-IsRemembered :
      (i : ℕ) (info : ProxyInfo R P) (cs : List (Call R P)) (p : ProxyPool R P)
      → keeps i cs ≡ true
      → IsRemembered i info p
      → IsRemembered i info (run p cs)
  unfolding run step
  run-IsRemembered i info [] p k h = h
  run-IsRemembered i info (Call.registers new ∷ cs) p k h =
      run-IsRemembered i info cs (upsert new p) k (upsert-IsRemembered i info new p h)
  run-IsRemembered i info (Call.beats b now ∷ cs) p k h =
      run-IsRemembered i info cs (heartbeat b now p).1 k (heartbeat-IsRemembered i info b now p h)
  run-IsRemembered i info (Call.counts j delta ∷ cs) p k h =
      run-IsRemembered i info cs (inflight_delta j delta p).1 k
        (inflight_delta-IsRemembered i j delta info p h)
  run-IsRemembered i info (Call.removes j ∷ cs) p k h =
      run-IsRemembered i info cs (remove j p) (ground arith)
        (remove-IsRemembered i j info p (ground arith) h)
