-- ===== src/Scheduler/KdnPool/Tests.antt =====
-- The theorems on the pool of KDNs at concrete requests.
use cache_route.Common.{
  ℕ, ◌≡◌, ◌↔◌, refl, true, false, none, some, List, [], ◌∷◌, Member, or_default, leb, ◌-◌,
}
use cache_route.Common.Int.{ℤ}
use cache_route.Common.Text.{codes}
use cache_route.Common.Floats.Naturals.{whole_numbers}
use cache_route.Scheduler.KdnPool.{
  KdnPool, KdnInfo, KdnRegisterRequest, KdnHeartbeatRequest, get_kdn, list_kdns, no_load,
  kdn_request_load, kdn_heartbeat,
}
use cache_route.Scheduler.KdnPool.Registered.{
  Request, IsSince, serve, serve-IsSince, kdn_heartbeat-list_kdns,
}

abbrev kdn : KdnInfo ℕ
kdn = record {
  kdn_id = 1;
  host = codes "localhost";
  port = 9101;
  endpoints = [];
  tags = [];
  weight = 1;
  meta = [];
  load = no_load;
  registered_at = 100;
  last_seen_at = 100;
}

abbrev pool : KdnPool ℕ
pool = record { ttl_s = 30; kdns = (1, kdn) ∷ [] }

abbrev registration : ℕ → KdnRegisterRequest ℕ
registration i = record {
  kdn_id = i;
  host = codes "localhost";
  port = 9102;
  endpoints = [];
  tags = [];
  weight = 1;
  meta = [];
}

abbrev beat : KdnHeartbeatRequest ℕ
beat = record {
  kdn_id = 1;
  items = some (ℤ.pos 12);
  qps_1m = none;
  pending_transfers = none;
  active_transfers = none;
  network_queue_ms_ema = none;
}

abbrev requests : List (Request ℕ)
requests =
    Request.registers (registration 1) 120
    ∷ Request.registers (registration 2) 121
    ∷ Request.unregisters 2
    ∷ Request.beats beat 125
    ∷ []

serve-IsSince_example : IsSince 1 100 (serve pool requests)
serve-IsSince_example = serve-IsSince 1 100 requests pool refl (kdn, refl, refl)

abbrev others : List (Request ℕ)
others = Request.registers (registration 2) 130 ∷ Request.unregisters 3 ∷ []

kdn_heartbeat-list_kdns_example :
    let (ok, p') = kdn_heartbeat beat 125 pool in
    (ok ≡ true)
    × (info' : KdnInfo ℕ) × (get_kdn (serve p' others) 1 ≡ some info')
    × (info'.load ≡ or_default (kdn_request_load beat) kdn.load)
    × (Member info' (list_kdns false 150 (serve p' others)) ↔ (leb (150 - 125) 30 ≡ true))
kdn_heartbeat-list_kdns_example = kdn_heartbeat-list_kdns beat 125 150 kdn pool others refl refl
