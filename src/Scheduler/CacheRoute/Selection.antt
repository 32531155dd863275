-- ===== src/Scheduler/CacheRoute/Selection.antt =====
-- Which proxy the strategy chooses, and how large its history grows.
use cache_route.Common.{
  ℕ, zero, suc, ◌≡◌, ◌≤◌, ◌<◌, true, Option, some, List, [], ◌∷◌, ltb, length, take, or_default,
  Bool-cases, inl, inr, arith,
}
use cache_route.Common.Dict.{Dict, lookup, lookup-insert}
use cache_route.Common.Floats.{Floats}
use cache_route.Common.Sort.{sort}
use cache_route.Scheduler.CacheRoute.{Kdn}
use cache_route.Scheduler.CacheRoute.Safe.{InReach, IsNearLoad, InWindows, IsPreferred}
use cache_route.Scheduler.CacheRoute.Proxies.{
  Proxy, Window, History, load_ratio, trimmed, update_affinity, decay_all, boosted, select_proxy,
}

module _ {A : Type 0} where
  length-take : (n : ℕ) (xs : List A) → length (take n xs) ≤ n
  length-take zero xs = omega arith
  length-take (suc n) [] = omega arith
  length-take (suc n) (x ∷ xs) = omega (arith, length-take n xs)

module _ {R : Type 0} ⦃f : Floats R⦄ where
  -- What a chosen proxy must be. Of the proxies in reach one has the least load ratio, and of those
  -- near it one has the least use of its GPUs; the chosen one is within both windows around these,
  -- has the most affinity of all proxies that are, and is preferred to each with as much.
  pub record IsSafe (w : Window R) (k : Option (Kdn R)) (score : Proxy R → R)
      (proxies : List (Proxy R)) (p : Proxy R) : Type 0 where
    pub lowest : Proxy R
    pub lowest_reached : InReach k proxies lowest
    pub lowest_least :
        (q : Proxy R) → InReach k proxies q → f.le (load_ratio lowest) (load_ratio q) ≡ true
    pub coolest : Proxy R
    pub coolest_reached : InReach k proxies coolest × IsNearLoad w lowest coolest
    pub coolest_least :
        (q : Proxy R)
        → InReach k proxies q
        → IsNearLoad w lowest q
        → f.le coolest.gpu_util q.gpu_util ≡ true
    pub within : InWindows w k proxies lowest coolest p
    pub familiar :
        (q : Proxy R) → InWindows w k proxies lowest coolest q → f.le (score q) (score p) ≡ true
    pub preferred :
        (q : Proxy R)
        → InWindows w k proxies lowest coolest q
        → f.le (score p) (score q) ≡ true
        → IsPreferred k p q

module _ {R : Type 0} ⦃f : Floats R⦄ where
  length-trimmed : (topk : ℕ) (table : Dict R) → 0 < topk → length (trimmed topk table) ≤ topk
  unfolding trimmed
  length-trimmed topk table h = elim (Bool-cases (ltb topk (length table))) [
    | inl e ↦ ground (arith, length-take topk (sort (λ a b. f.le b.1 a.1) table))
    | inr e ↦ ground arith
  ]

  -- If the history is limited, the table of the chosen proxy never has more entries than that after
  -- a selection.
  pub select_proxy-topk :
      (w : Window R) (k : Option (Kdn R)) (kids : List ℕ) (lengths : Dict ℕ)
      (proxies : List (Proxy R)) (h : History R) (p : Proxy R)
      → 0 < w.affinity_topk
      → (select_proxy w k kids lengths proxies h).0 ≡ some p
      → (table : Dict R) × (lookup p.proxy_id (select_proxy w k kids lengths proxies h).1.affinity
          ≡ some table)
        × (length table ≤ w.affinity_topk)
  unfolding select_proxy update_affinity
  select_proxy-topk w k kids lengths proxies h p pos e =
      let tables = decay_all w proxies h.affinity in
      let table =
        trimmed w.affinity_topk (boosted kids (or_default (lookup p.proxy_id tables) [])) in
      rw e (
        table,
        ground (arith, lookup-insert p.proxy_id p.proxy_id table tables),
        length-trimmed w.affinity_topk _ pos,
      )
