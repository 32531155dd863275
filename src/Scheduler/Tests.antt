-- ===== src/Scheduler/Tests.antt =====
-- The scheduler's theorems at concrete pools.
use cache_route.Common.{ℕ, ◌+◌, refl, false, Option, none, some, List, [], ◌∷◌, keep}
use cache_route.Common.Dict.{values}
use cache_route.Common.Int.{ℤ}
use cache_route.Common.Text.{codes}
use cache_route.Common.Sort.{IsSorted}
use cache_route.Common.Floats.Naturals.{whole_numbers, whole_numbers-IsOrdered}
use cache_route.Scheduler.ProxyPool.{
  ProxyPool, ProxyInfo, Beat, is_alive, later_first, list_proxies,
}
use cache_route.Scheduler.ProxyPool.Calls.{Call, run}
use cache_route.Scheduler.ProxyPool.Listing.{list_proxies-IsSorted}
use cache_route.Scheduler.ProxyPool.Registered.{IsRemembered, run-IsRemembered}
use cache_route.Scheduler.ControlPlane.{ProxyHeartbeatRequest}
use mathlib.Core.List.{Perm}

-- Seen at `now`, with four requests in flight; the report is a number.
abbrev proxy : ℕ → Option ℕ → ℕ → ProxyInfo ℕ ℕ
proxy i report now = record {
  proxy_id = i;
  host = codes "localhost";
  port = 7000 + i;
  endpoints = [];
  tags = [];
  weight = 1;
  meta = [];
  kv_cache_update_policy = codes "lru";
  load = record {
    max_capacity = 10;
    instance_count = 2;
    kv_mem_per_instance_gb = 8;
    kv_cache_pool_gb = 16;
    inflight = ℤ.pos 4;
    qps_1m = 3;
    gpu_util = 50;
  };
  registered_at = now;
  last_seen_at = now;
  pool_resource = report;
  pool_resource_reported_at = none;
}

abbrev three : ProxyPool ℕ ℕ
three = record {
  ttl_s = 30;
  proxies = (1, proxy 1 (some 6) 100) ∷ (2, proxy 2 none 120) ∷ (3, proxy 3 none 110) ∷ [];
}

-- The first of the three has been silent for too long.
list_proxies-IsSorted_example :
    Perm (list_proxies false 135 three) (keep (is_alive 30 135) (values three.proxies))
    × IsSorted later_first (list_proxies false 135 three)
list_proxies-IsSorted_example = list_proxies-IsSorted false 135 three whole_numbers-IsOrdered

abbrev beat : ℕ → Beat ℕ ℕ
beat i = record { proxy_id = i; load = none; meta_patch = none; pool_resource = none }

abbrev calls : List (Call ℕ ℕ)
calls =
    Call.registers (proxy 1 none 140)
    ∷ Call.removes 2
    ∷ Call.beats (beat 1) 150
    ∷ Call.counts 1 (ℤ.negsuc 0)
    ∷ []

-- Proxy 1 registers again without a report, beats, and is counted down.
run-IsRemembered_example : IsRemembered 1 (proxy 1 (some 6) 100) (run three calls)
run-IsRemembered_example =
    run-IsRemembered 1 (proxy 1 (some 6) 100) calls three refl
      (proxy 1 (some 6) 100, refl, record { same_start = refl; reported = λ h. h })

-- Only the utilization is reported.
abbrev request : ProxyHeartbeatRequest ℕ ℕ
request = record {
  proxy_id = 1;
  inflight = none;
  qps_1m = none;
  gpu_util = some 70;
  meta_patch = none;
  pool_resource = none;
}
