-- ===== src/Scheduler/ProxyPool/Listing.antt =====
-- What `list` gives to the selection strategies, and in which order.
use cache_route.Common.{Bool, if◌then◌else◌, keep}
use cache_route.Common.Dict.{values}
use cache_route.Common.Floats.{Floats, IsOrdered}
use cache_route.Common.Sort.{IsSorted, sort-perm, sort-IsSorted}
use cache_route.Scheduler.ProxyPool.{ProxyPool, later_first, list_proxies}
use mathlib.Core.List.{Perm}

module _ {R P : Type 0} ⦃f : Floats R⦄ where
  -- If the times are totally ordered, `list` gives the proxies of the pool, each as often as the pool
  -- has it, whose last sign of life is no longer ago than the time to live (all, if the inactive
  -- ones are asked for too), and none after one that was seen earlier.
  pub list_proxies-IsSorted :
      (include_dead : Bool) (now : R) (p : ProxyPool R P)
      → IsOrdered f
      → Perm (list_proxies include_dead now p) (
          if include_dead
          then values p.proxies
          else keep (λ i. f.le (f.sub now i.last_seen_at) (f.of_ℕ p.ttl_s)) (values p.proxies))
        × IsSorted (λ a b. f.le b.last_seen_at a.last_seen_at) (list_proxies include_dead now p)
  unfolding list_proxies
  list_proxies-IsSorted include_dead now p ord = (
    sort-perm later_first _,
    sort-IsSorted later_first _ (λ a b. ord.le_total b.last_seen_at a.last_seen_at)
        (λ a b c h h'. ord.le_trans c.last_seen_at b.last_seen_at a.last_seen_at h' h),
  )
