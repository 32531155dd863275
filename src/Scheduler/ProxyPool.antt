-- ===== src/Scheduler/ProxyPool.antt =====
-- scheduler/resource/proxy_pool.py: the registered proxies, their liveness and their load. Each
-- method runs under the pool's lock, so it is one step. `now` is what `time.time()` reads there;
-- the report on a proxy's instances is passed through whole, so its type is a parameter.
pub mod Calls
pub mod Listing
pub mod Registered
use cache_route.Common.{
  ℕ, Bool, true, false, Option, none, some, List, [], if◌then◌else◌, or_default, keep,
}
use cache_route.Common.Dict.{Dict, lookup, insert, erase, update, values}
use cache_route.Common.Text.{Text}
use cache_route.Common.Int.{ℤ, ◌+ℤ◌, clamp}
use cache_route.Common.Floats.{Floats}
use cache_route.Common.Sort.{sort}

pub record ProxyLoad (R : Type 0) : Type 0 where
  pub max_capacity : ℕ
  pub instance_count : ℕ
  pub kv_mem_per_instance_gb : R
  pub kv_cache_pool_gb : R
  pub inflight : ℤ
  pub qps_1m : R
  pub gpu_util : R

pub record ProxyInfo (R P : Type 0) : Type 0 where
  pub proxy_id : ℕ
  pub host : Text
  pub port : ℕ
  pub endpoints : List Text
  pub tags : List Text
  pub weight : R
  pub meta : Dict ℕ
  pub kv_cache_update_policy : Text
  pub load : ProxyLoad R
  pub registered_at : R
  pub last_seen_at : R
  pub pool_resource : Option P
  pub pool_resource_reported_at : Option R

pub record ProxyPool (R P : Type 0) : Type 0 where
  pub ttl_s : ℕ
  pub proxies : Dict (ProxyInfo R P)

-- The arguments of `heartbeat`.
pub record Beat (R P : Type 0) : Type 0 where
  pub proxy_id : ℕ
  pub load : Option (ProxyLoad R)
  pub meta_patch : Option (Dict ℕ)
  pub pool_resource : Option P

-- The three numbers of the load that a heartbeat may bring.
abbrev pub load_reported : {R : Type 0} → Option (ProxyLoad R) → ProxyLoad R → ProxyLoad R
load_reported none load = load
load_reported (some new) load = record load {
  inflight = new.inflight;
  qps_1m = new.qps_1m;
  gpu_util = new.gpu_util;
}

module _ {R P : Type 0} where
  -- `self._data.get(proxy_id)`
  abbrev pub get : ProxyPool R P → ℕ → Option (ProxyInfo R P)
  get p i = lookup i p.proxies

  -- `self._data[proxy_id] = info`
  abbrev pub store : ProxyPool R P → ℕ → ProxyInfo R P → ProxyPool R P
  store p i info = record p { proxies = insert i info p.proxies }

  -- The report on the proxy's instances: the old one and its time, if none came with `info`.
  abbrev pub keep_report : ProxyInfo R P → ProxyInfo R P → ProxyInfo R P
  keep_report old info = elim info.pool_resource [
    | some report ↦ info
    | none ↦ record info {
      pool_resource = old.pool_resource;
      pool_resource_reported_at = old.pool_resource_reported_at;
    }
  ]

  unfoldable pub upsert : ProxyInfo R P → ProxyPool R P → ProxyPool R P
  upsert info p = elim (get p info.proxy_id) [
    | none ↦ store p info.proxy_id info
    | some old ↦
        store p info.proxy_id (keep_report old (record info { registered_at = old.registered_at }))
  ]

  -- The assignments of a heartbeat to a known proxy.
  abbrev pub refresh : Beat R P → R → ProxyInfo R P → ProxyInfo R P
  refresh b now info =
      let seen = record info {
        last_seen_at = now;
        load = load_reported b.load info.load;
        meta = update info.meta (or_default b.meta_patch []);
      } in
      elim b.pool_resource [
        | none ↦ seen
        | some report ↦ record seen {
          pool_resource = some report;
          pool_resource_reported_at = some now;
        }
      ]

  unfoldable pub heartbeat : Beat R P → R → ProxyPool R P → Bool × ProxyPool R P
  heartbeat b now p = elim (get p b.proxy_id) [
    | none ↦ (false, p)
    | some info ↦ (true, store p b.proxy_id (refresh b now info))
  ]

  unfoldable pub remove : ℕ → ProxyPool R P → ProxyPool R P
  remove i p = record p { proxies = erase i p.proxies }

  abbrev pub set_inflight : ProxyInfo R P → ℤ → ProxyInfo R P
  set_inflight info v = record info { load = record (info.load) { inflight = v } }

  unfoldable pub inflight_delta : ℕ → ℤ → ProxyPool R P → Bool × ProxyPool R P
  inflight_delta i delta p = elim (get p i) [
    | none ↦ (false, p)
    | some info ↦ (true, store p i (set_inflight info (clamp (info.load.inflight +ℤ delta))))
  ]

module _ {R P : Type 0} ⦃f : Floats R⦄ where
  -- `(now - self.last_seen_at) <= ttl_s`
  abbrev pub is_alive : ℕ → R → ProxyInfo R P → Bool
  is_alive ttl_s now info = f.le (f.sub now info.last_seen_at) (f.of_ℕ ttl_s)

  -- `key=lambda x: x.last_seen_at, reverse=True`: a comparison of the elements.
  abbrev pub later_first : ProxyInfo R P → ProxyInfo R P → Bool
  later_first a b = f.le b.last_seen_at a.last_seen_at

  -- `list`. The reversed sort keeps the order of equals.
  unfoldable pub list_proxies : Bool → R → ProxyPool R P → List (ProxyInfo R P)
  list_proxies include_dead now p =
      let infos = values p.proxies in
      sort later_first (if include_dead then infos else keep (is_alive p.ttl_s now) infos)
