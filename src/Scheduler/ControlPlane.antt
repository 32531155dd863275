-- ===== src/Scheduler/ControlPlane.antt =====
-- scheduler/resource/control_plane.py: the handlers through which proxies register and report.
-- The request models check the bounds of the numbers. The new id (`uuid4`) and the readings of the
-- clock are arguments; the counters of the heartbeat log are left out.
use cache_route.Common.{
  ℕ, Bool, ◌||◌, Option, none, some, List, [], ◌∷◌, if◌then◌else◌, is_some, or_default,
}
use cache_route.Common.Dict.{Dict}
use cache_route.Common.Text.{Text, codes}
use cache_route.Common.Int.{ℤ}
use cache_route.Common.Floats.{Floats}
use cache_route.Scheduler.ProxyPool.{ProxyPool, ProxyInfo, ProxyLoad, upsert, heartbeat, remove}

pub record ProxyRegisterRequest (R P : Type 0) : Type 0 where
  pub proxy_id : Option ℕ
  pub host : Text
  pub port : ℕ
  pub endpoints : List Text
  pub tags : List Text
  pub weight : R
  pub meta : Dict ℕ
  pub max_capacity : ℕ
  pub instance_count : ℕ
  pub kv_mem_per_instance_gb : R
  pub kv_cache_update_policy : Text
  pub pool_resource : Option P

pub record ProxyHeartbeatRequest (R P : Type 0) : Type 0 where
  pub proxy_id : ℕ
  pub inflight : Option ℤ
  pub qps_1m : Option R
  pub gpu_util : Option R
  pub meta_patch : Option (Dict ℕ)
  pub pool_resource : Option P

-- `text or "lru"`
abbrev pub or_lru : Text → Text
or_lru [] = codes "lru"
or_lru (x ∷ xs) = x ∷ xs

module _ {R : Type 0} ⦃f : Floats R⦄ where
  -- `ProxyLoad` with its defaults.
  abbrev pub dynamic_load : ℤ → R → R → ProxyLoad R
  dynamic_load inflight qps_1m gpu_util = record {
    max_capacity = 0;
    instance_count = 0;
    kv_mem_per_instance_gb = f.of_ℕ 0;
    kv_cache_pool_gb = f.of_ℕ 0;
    inflight = inflight;
    qps_1m = qps_1m;
    gpu_util = gpu_util;
  }

module _ {R P : Type 0} ⦃f : Floats R⦄ where
  -- The answer is the id of the proxy.
  unfoldable pub proxy_register :
      ProxyRegisterRequest R P → ℕ → R → ProxyPool R P → ℕ × ProxyPool R P
  proxy_register req fresh_id now p =
      let proxy_id = or_default req.proxy_id fresh_id in
      let info : ProxyInfo R P = record {
        proxy_id = proxy_id;
        host = req.host;
        port = req.port;
        endpoints = req.endpoints;
        tags = req.tags;
        weight = req.weight;
        meta = req.meta;
        kv_cache_update_policy = or_lru req.kv_cache_update_policy;
        load = record {
          max_capacity = req.max_capacity;
          instance_count = req.instance_count;
          kv_mem_per_instance_gb = req.kv_mem_per_instance_gb;
          kv_cache_pool_gb = f.mul (f.of_ℕ req.instance_count) req.kv_mem_per_instance_gb;
          inflight = ℤ.pos 0;
          qps_1m = f.of_ℕ 0;
          gpu_util = f.of_ℕ 0;
        };
        registered_at = now;
        last_seen_at = now;
        pool_resource = req.pool_resource;
        pool_resource_reported_at = if is_some req.pool_resource then some now else none;
      } in
      (proxy_id, upsert info p)

  -- The heartbeat has a field of the load.
  abbrev pub any_load : ProxyHeartbeatRequest R P → Bool
  any_load req = is_some req.inflight || is_some req.qps_1m || is_some req.gpu_util

  -- The load of a heartbeat, if it has any field of it.
  abbrev pub request_load : ProxyHeartbeatRequest R P → Option (ProxyLoad R)
  request_load req =
      if any_load req
      then some (
          dynamic_load (or_default req.inflight (ℤ.pos 0)) (or_default req.qps_1m (f.of_ℕ 0))
            (or_default req.gpu_util (f.of_ℕ 0)))
      else none

  -- `false` is the answer 404.
  unfoldable pub proxy_heartbeat :
      ProxyHeartbeatRequest R P → R → ProxyPool R P → Bool × ProxyPool R P
  proxy_heartbeat req now p =
      heartbeat
        (record {
          proxy_id = req.proxy_id;
          load = request_load req;
          meta_patch = req.meta_patch;
          pool_resource = req.pool_resource;
        })
        now p

  unfoldable pub proxy_unregister : ℕ → ProxyPool R P → ProxyPool R P
  proxy_unregister i p = remove i p
