-- ===== src/Scheduler/CacheRoute/Proxies.antt =====
-- `_select_proxy` of scheduler/strategy/cacheroute.py: the choice of a proxy for a chosen KDN, and
-- the history of knowledge that it updates. The counters of requests in flight are not negative.
-- The candidates are read outside the lock, so one selection is one step only where selections do
-- not overlap, as in the scheduler's event loop.
use cache_route.Common.{
  ℕ, ◌+◌, ◌%◌, Bool, ◌&&◌, Option, none, some, List, [], ◌∷◌, ◌==◌, ltb, leb, if◌then◌else◌,
  or_default, keep, map, take, length, get_elem?,
}
use cache_route.Common.Dict.{Dict, lookup, insert}
use cache_route.Common.Floats.{Floats, lt, float_max, min_from, max_from}
use cache_route.Common.Lex.{lex}
use cache_route.Common.Sort.{sort}
use cache_route.Scheduler.CacheRoute.{Kdn}

-- An entry of `meta["kdn_links"]`; an empty one counts as missing.
pub record Link (R : Type 0) : Type 0 where
  pub bandwidth_mbps : R
  pub latency_ms : Option R

-- A proxy as the scheduler hands it on.
pub record Proxy (R : Type 0) : Type 0 where
  pub proxy_id : ℕ
  pub inflight : ℕ
  pub max_inflight : ℕ
  pub qps_1m : R
  pub gpu_util : R
  pub kdn_links : Dict (Link R)

pub record Window (R : Type 0) : Type 0 where
  pub inflight_delta : ℕ
  pub gpu_delta : R
  pub load_ratio_delta : R
  pub affinity_decay : R
  pub affinity_topk : ℕ
  -- The number 1e-6.
  pub forgotten : R

-- `_proxy_kid_affinity` and `_proxy_cursor`.
pub record History (R : Type 0) : Type 0 where
  pub affinity : Dict (Dict R)
  pub proxy_cursor : ℕ

-- `xs or ys`
abbrev pub or_else {ℓ} : {A : Type ℓ} → List A → List A → List A
or_else [] ys = ys
or_else (x ∷ xs) ys = x ∷ xs

-- `w or 1`
abbrev pub or_one : ℕ → ℕ
or_one n = if n == 0 then 1 else n

module _ {R : Type 0} ⦃f : Floats R⦄ where
  abbrev pub zero_f : R
  zero_f = f.of_ℕ 0

  abbrev pub far : R
  far = f.of_ℕ 1_000_000_000

  -- `_topology_link_for_proxy`, and what stands for it where no KDN was chosen.
  abbrev pub link_values : Option (Link R) → R × R
  link_values none = (zero_f, far)
  link_values (some l) = (l.bandwidth_mbps, or_default l.latency_ms far)

  unfoldable pub link : Option (Kdn R) → Proxy R → R × R
  link none p = (zero_f, far)
  link (some k) p = elim (lookup k.kdn_id p.kdn_links) [
    | some l ↦ link_values (some l)
    | none ↦ link_values (lookup k.kdn_addr p.kdn_links)
  ]

  -- `_proxy_load_ratio`
  unfoldable pub load_ratio : Proxy R → R
  load_ratio p =
      if p.max_inflight == 0
      then f.of_ℕ 1
      else float_max zero_f (f.div (f.of_ℕ p.inflight) (f.of_ℕ p.max_inflight))

  -- The proxies that the KDN reaches, or all if it reaches none or there is no KDN.
  unfoldable pub proxy_pool : Option (Kdn R) → List (Proxy R) → List (Proxy R)
  unfolding link
  proxy_pool none proxies = proxies
  proxy_pool (some k) proxies = or_else (keep (λ p. lt zero_f (link (some k) p).0) proxies) proxies

  -- `min(g(p) for p in ps)`, and `max` with the default 0.
  abbrev pub least : (Proxy R → R) → List (Proxy R) → R
  least g [] = zero_f
  least g (p ∷ ps) = min_from (g p) (map g ps)

  abbrev pub greatest : (Proxy R → R) → List (Proxy R) → R
  greatest g [] = zero_f
  greatest g (p ∷ ps) = max_from (g p) (map g ps)

  abbrev pub least_inflight : List (Proxy R) → ℕ → ℕ
  least_inflight [] m = m
  least_inflight (p ∷ ps) m = least_inflight ps (if ltb p.inflight m then p.inflight else m)

  abbrev pub inflight_window : ℕ → List (Proxy R) → List (Proxy R)
  inflight_window delta [] = []
  inflight_window delta (p ∷ ps) =
      keep (λ q. leb q.inflight (least_inflight ps p.inflight + delta)) (p ∷ ps)

  -- The load window, and within it that of the GPUs.
  unfoldable pub load_safe : Window R → List (Proxy R) → List (Proxy R)
  unfolding load_ratio
  load_safe w pool =
      or_else
        (keep
          (λ p.
            f.le (load_ratio p)
              (f.add (least load_ratio pool) (float_max zero_f w.load_ratio_delta)))
          pool)
        (inflight_window w.inflight_delta pool)

  unfoldable pub gpu_safe : Window R → List (Proxy R) → List (Proxy R)
  gpu_safe w safe =
      if lt zero_f w.gpu_delta
      then or_else
          (keep (λ p. f.le p.gpu_util (f.add (least (λ q. q.gpu_util) safe) w.gpu_delta)) safe) safe
      else safe

  -- `_affinity_score`: the sum over the wanted knowledge, from the left.
  affinity_from : R → Dict R → Dict ℕ → List ℕ → R
  affinity_from score table lengths [] = score
  affinity_from score table lengths (kid ∷ kids) =
      affinity_from
        (f.add score (
          f.mul (or_default (lookup kid table) zero_f)
            (f.of_ℕ (or_one (or_default (lookup kid lengths) 1)))))
        table lengths kids

  score_of : Dict R → List ℕ → Dict ℕ → R
  unfolding affinity_from
  score_of [] kids lengths = zero_f
  score_of (entry ∷ table) kids lengths = affinity_from zero_f (entry ∷ table) lengths kids

  unfoldable pub affinity_score : History R → List ℕ → Dict ℕ → Proxy R → R
  unfolding score_of
  affinity_score h kids lengths p =
      score_of (or_default (lookup p.proxy_id h.affinity) []) kids lengths

  abbrev pub same_float : R → R → Bool
  same_float a b = f.le a b && f.le b a

  unfoldable pub aff_group : (Proxy R → R) → List (Proxy R) → List (Proxy R)
  aff_group score ps = keep (λ p. same_float (score p) (greatest score ps)) ps

  -- The key but for the id, as a comparison: more bandwidth, and then less of all others.
  abbrev pub better : Option (Kdn R) → Proxy R → Proxy R → Bool
  better k =
      lex (λ a b. f.le (link k b).0 (link k a).0)
        (lex (λ a b. f.le (link k a).1 (link k b).1)
          (lex (λ a b. f.le (load_ratio a) (load_ratio b))
            (lex (λ a b. leb a.inflight b.inflight)
              (lex (λ a b. f.le a.qps_1m b.qps_1m) (λ a b. f.le a.gpu_util b.gpu_util)))))

  abbrev pub ranks : Option (Kdn R) → Proxy R → Proxy R → Bool
  ranks k = lex (better k) (λ a b. leb a.proxy_id b.proxy_id)

  -- From the ranked candidates: the best, or in turn one of those tied with it.
  unfoldable pub choose_ranked : Option (Kdn R) → List (Proxy R) → ℕ → Option (Proxy R) × ℕ
  choose_ranked k [] cursor = (none, cursor)
  choose_ranked k (best ∷ others) cursor =
      let tied = keep (λ p. better k p best && better k best p) (best ∷ others) in
      if ltb 1 (length tied)
      then (get_elem? tied (cursor % length tied), cursor + 1)
      else (some best, cursor)

  -- The candidates that are left before they are ranked.
  unfoldable pub candidates :
      Window R → Option (Kdn R) → List ℕ → Dict ℕ → History R → List (Proxy R) → List (Proxy R)
  unfolding proxy_pool load_safe gpu_safe affinity_score aff_group
  candidates w k kids lengths h proxies =
      aff_group (affinity_score h kids lengths) (gpu_safe w (load_safe w (proxy_pool k proxies)))

  -- One table's decay.
  decayed : Window R → Dict R → Dict R
  decayed w [] = []
  decayed w ((kid, value) ∷ table) =
      let rest = decayed w table in
      let value' = f.mul value w.affinity_decay in
      if lt value' w.forgotten then rest else (kid, value') ∷ rest

  -- The loop over all proxies: a missing table is made, and each decays.
  pub decay_all : Window R → List (Proxy R) → Dict (Dict R) → Dict (Dict R)
  decay_all w [] tables = tables
  decay_all w (p ∷ ps) tables =
      decay_all w ps
        (insert p.proxy_id (decayed w (or_default (lookup p.proxy_id tables) [])) tables)

  pub boosted : List ℕ → Dict R → Dict R
  boosted [] table = table
  boosted (kid ∷ kids) table =
      boosted kids (insert kid (f.add (or_default (lookup kid table) zero_f) (f.of_ℕ 1)) table)

  -- Only the most valued entries are kept.
  unfoldable pub trimmed : ℕ → Dict R → Dict R
  trimmed topk table =
      if ltb 0 topk && ltb topk (length table)
      then take topk (sort (λ a b. f.le b.1 a.1) table)
      else table

  unfoldable pub update_affinity :
      Window R → List (Proxy R) → List ℕ → Option (Proxy R) → Dict (Dict R) → Dict (Dict R)
  unfolding decayed decay_all boosted trimmed
  update_affinity w proxies kids none tables = tables
  update_affinity w proxies kids (some chosen) tables =
      let tables' = decay_all w proxies tables in
      insert chosen.proxy_id
        (trimmed w.affinity_topk (boosted kids (or_default (lookup chosen.proxy_id tables') [])))
        tables'

  -- `_select_proxy`
  unfoldable pub select_proxy :
      Window R
      → Option (Kdn R)
      → List ℕ
      → Dict ℕ
      → List (Proxy R)
      → History R
      → Option (Proxy R) × History R
  unfolding candidates choose_ranked update_affinity
  select_proxy w k kids lengths proxies h =
      let ranked = sort (ranks k) (candidates w k kids lengths h proxies) in
      let (chosen, cursor) = choose_ranked k ranked h.proxy_cursor in
      (
        chosen,
        record {
          affinity = update_affinity w proxies kids chosen h.affinity;
          proxy_cursor = cursor;
        },
      )
