-- ===== src/Scheduler/CacheRoute/Tests.antt =====
-- The choice among concrete KDNs.
use cache_route.Common.{ℕ, ◌+◌, ◌≡◌, false, none, some, List, [], ◌∷◌, refl}
use cache_route.Common.Floats.Naturals.{whole_numbers}
use cache_route.Common.Sort.{sort, insert_sorted}
use cache_route.Scheduler.CacheRoute.{
  Kdn, Thresholds, KnowledgeIndex, KnowledgeMeta, is_overloaded, meta_by_kid, coverage, coverage_of,
  select_kdn,
}
use cache_route.Common.{length}
use cache_route.Scheduler.CacheRoute.Proxies.{Proxy, Window, History, select_proxy}

abbrev kdn : ℕ → ℕ → Kdn ℕ
kdn i qps = record {
  kdn_id = i;
  kdn_addr = 100 + i;
  items = 3;
  qps_1m = qps;
  pending_transfers = some 0;
  active_transfers = none;
  network_queue_ms_ema = none;
  meta_overloaded = false;
  meta_pending_transfers = none;
  meta_active_transfers = some 1;
  meta_network_queue_ms_ema = none;
}

abbrev thresholds : Thresholds ℕ
thresholds = record { qps = 50; items = 0; pending = 0; active = 4; queue_ms = 0 }

abbrev known : ℕ → ℕ → KnowledgeMeta
known kv_ready length = record { kv_ready = kv_ready; length = length }

-- KDN 1 has both texts and the cache of one, KDN 2 the caches of both, and KDN 3 one text. KDN 2 is
-- known by its address.
abbrev index : KnowledgeIndex
index =
    (1, (7, known 1 200) ∷ (8, known 0 300) ∷ [])
    ∷ (102, (7, known 1 200) ∷ (8, known 1 300) ∷ [])
    ∷ (3, (7, known 1 200) ∷ [])
    ∷ []

abbrev kdns : List (Kdn ℕ)
kdns = kdn 3 1 ∷ kdn 1 5 ∷ kdn 2 60 ∷ []

-- KDN 2 would have more, but is overloaded.
chosen : select_kdn thresholds index (7 ∷ 8 ∷ []) kdns ≡ some (kdn 1 5)
unfolding select_kdn sort insert_sorted coverage_of coverage meta_by_kid is_overloaded
chosen = refl

abbrev proxy : ℕ → ℕ → ℕ → Proxy ℕ
proxy i inflight bandwidth = record {
  proxy_id = i;
  inflight = inflight;
  max_inflight = 10;
  qps_1m = 2;
  gpu_util = 30;
  kdn_links = (1, record { bandwidth_mbps = bandwidth; latency_ms = some 4 }) ∷ [];
}

-- KDN 1 does not reach proxy 21, and proxy 22 is busier than the rest.
abbrev proxies : List (Proxy ℕ)
proxies = proxy 21 0 0 ∷ proxy 22 90 800 ∷ proxy 23 3 100 ∷ proxy 24 4 400 ∷ []

abbrev window : Window ℕ
window = record {
  inflight_delta = 2;
  gpu_delta = 0;
  load_ratio_delta = 1;
  affinity_decay = 1;
  affinity_topk = 2;
  forgotten = 1;
}

-- Proxy 23 has seen text 7.
abbrev history : History ℕ
history = record { affinity = (23, (7, 3) ∷ (9, 1) ∷ []) ∷ []; proxy_cursor = 5 }

chosen_proxy :
    (select_proxy window (some (kdn 1 5)) (7 ∷ 8 ∷ []) [] proxies history).0 ≡ some (proxy 23 3 100)
unfolding select_proxy sort
chosen_proxy = refl
