-- ===== src/Proxy/Strategy/RoundRobin.antt =====
-- proxy/strategy/round_robin.py: a counter that only grows, read modulo the number of candidates.
-- `select` runs under the strategy's lock, so it is one step on the counter.
pub mod Rotation
use cache_route.Common.{
  ℕ, ◌+◌, ◌%◌, ◌≡◌, ◌≢◌, ◌<◌, refl, Option, none, some, List, [], ◌∷◌, length, get_elem?,
  get_elem?-Member, Member, arith, inl, inr,
}

-- The counter `_idx` of a `RoundRobinStrategy`.
pub record RoundRobin : Type 0 where
  pub idx : ℕ

module _ {A : Type 0} where
  -- `none` is the RuntimeError of an empty list.
  unfoldable pub select : List A → RoundRobin → Option A × RoundRobin
  select [] s = (none, s)
  select (x ∷ xs) s = (get_elem? (x ∷ xs) (s.idx % length (x ∷ xs)), record { idx = s.idx + 1 })

  -- From a non-empty list one of its elements is chosen.
  pub select-Member :
      (xs : List A) (s : RoundRobin) → xs ≢ [] → (a : A) × ((select xs s).0 ≡ some a) × Member a xs
  unfolding select
  select-Member [] s h = absurd (h refl)
  select-Member (x ∷ xs) s h = get_elem?-Member (x ∷ xs) (s.idx % length (x ∷ xs)) (omega arith)
