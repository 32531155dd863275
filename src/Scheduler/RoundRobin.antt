-- ===== src/Scheduler/RoundRobin.antt =====
-- scheduler/strategy/round_robin.py: one counter for the KDNs and one for the proxies, each read
-- modulo the number of candidates. `select` runs under the strategy's lock, so it is one step.
pub mod Independent
mod Tests
use cache_route.Common.{ℕ, ◌+◌, ◌%◌, Option, none, some, List, [], ◌∷◌, length, get_elem?}

pub record RoundRobin : Type 0 where
  pub kdn_cursor : ℕ
  pub proxy_cursor : ℕ

-- The block for one of the two lists, which the code writes twice.
unfoldable pub turn : {A : Type 0} → List A → ℕ → Option A × ℕ
turn [] cursor = (none, cursor)
turn (x ∷ xs) cursor = (get_elem? (x ∷ xs) (cursor % length (x ∷ xs)), cursor + 1)

module _ {K P : Type 0} where
  unfoldable pub select : List K → List P → RoundRobin → (Option K × Option P) × RoundRobin
  unfolding turn
  select kdns proxies s =
      let (chosen_kdn, kdn_cursor) = turn kdns s.kdn_cursor in
      let (chosen_proxy, proxy_cursor) = turn proxies s.proxy_cursor in
      ((chosen_kdn, chosen_proxy), record { kdn_cursor = kdn_cursor; proxy_cursor = proxy_cursor })
