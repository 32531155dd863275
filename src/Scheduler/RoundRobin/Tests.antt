-- ===== src/Scheduler/RoundRobin/Tests.antt =====
-- The scheduler's round robin at concrete lists.
use cache_route.Common.{ℕ, ◌≡◌, refl, some, [], ◌∷◌, map, arith}
use cache_route.Scheduler.RoundRobin.{RoundRobin}
use cache_route.Scheduler.RoundRobin.Independent.{chosen_proxies, chosen_proxies_round}

abbrev cursors : RoundRobin
cursors = record { kdn_cursor = 2; proxy_cursor = 7 }

-- Three requests, one of which sees no KDN; the cursor points at the second proxy.
chosen_proxies_round_example :
    chosen_proxies {K = ℕ} {P = ℕ} ((1 ∷ 2 ∷ []) ∷ [] ∷ (1 ∷ []) ∷ []) (21 ∷ 22 ∷ 23 ∷ []) cursors
    ≡ map some (22 ∷ 23 ∷ 21 ∷ [])
chosen_proxies_round_example =
    chosen_proxies_round ((1 ∷ 2 ∷ []) ∷ [] ∷ (1 ∷ []) ∷ []) (21 ∷ 22 ∷ 23 ∷ []) cursors
      (omega arith) refl
