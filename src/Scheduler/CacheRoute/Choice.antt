-- ===== src/Scheduler/CacheRoute/Choice.antt =====
-- Which KDN the strategy chooses.
use cache_route.Common.{ℕ, ◌≡◌, ◌≤◌, ◌⊎◌, true, List, [], keep, All}
use cache_route.Common.Floats.{Floats, IsOrdered}
use cache_route.Scheduler.CacheRoute.{
  Kdn, Thresholds, KnowledgeIndex, coverage_of, text_code, is_usable,
}

module _ {R : Type 0} ⦃f : Floats R⦄ (ord : IsOrdered f) where
  module _ (th : Thresholds R) (index : KnowledgeIndex) where
    -- What the strategy says of its choice `k` when knowledge is wanted: it is usable, and of the
    -- usable ones has the most key-value cache, or none is usable, and it has all the texts if any
    -- KDN has.
    abbrev pub IsBest : List ℕ → List (Kdn R) → Kdn R → Type 0
    IsBest kids kdns k =
        ((is_usable th index kids k ≡ true)
          × All
              (λ u.
                (coverage_of th index kids u).kv_cover_len
                ≤ (coverage_of th index kids k).kv_cover_len)
              (keep (is_usable th index kids) kdns))
        ⊎ ((keep (is_usable th index kids) kdns ≡ [])
            × All (λ u. text_code th index kids k ≤ text_code th index kids u) kdns)
