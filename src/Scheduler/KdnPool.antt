-- ===== src/Scheduler/KdnPool.antt =====
-- scheduler/resource/kdn_pool.py, with the handlers of scheduler/resource/control_plane.py that
-- write to it. Each method runs under the pool's lock, so it is one step; `now` is what
-- `time.time()` reads there. The callback that a registration triggers is left out.
pub mod Registered
mod Tests
use cache_route.Common.{
  ℕ, Bool, true, false, ◌||◌, Option, none, some, List, [], ◌∷◌, if◌then◌else◌, is_some, or_default,
  keep,
}
use cache_route.Common.Dict.{Dict, lookup, insert, erase, values}
use cache_route.Common.Text.{Text}
use cache_route.Common.Int.{ℤ}
use cache_route.Common.Floats.{Floats}

pub record KdnLoad (R : Type 0) : Type 0 where
  pub items : ℤ
  pub qps_1m : R
  pub pending_transfers : ℤ
  pub active_transfers : ℤ
  pub network_queue_ms_ema : R

pub record KdnInfo (R : Type 0) : Type 0 where
  pub kdn_id : ℕ
  pub host : Text
  pub port : ℕ
  pub endpoints : List Text
  pub tags : List Text
  pub weight : R
  pub meta : Dict ℕ
  pub load : KdnLoad R
  pub registered_at : R
  pub last_seen_at : R

pub record KdnPool (R : Type 0) : Type 0 where
  pub ttl_s : ℕ
  pub kdns : Dict (KdnInfo R)

pub record KdnRegisterRequest (R : Type 0) : Type 0 where
  pub kdn_id : ℕ
  pub host : Text
  pub port : ℕ
  pub endpoints : List Text
  pub tags : List Text
  pub weight : R
  pub meta : Dict ℕ

pub record KdnHeartbeatRequest (R : Type 0) : Type 0 where
  pub kdn_id : ℕ
  pub items : Option ℤ
  pub qps_1m : Option R
  pub pending_transfers : Option ℤ
  pub active_transfers : Option ℤ
  pub network_queue_ms_ema : Option R

module _ {R : Type 0} where
  abbrev pub get_kdn : KdnPool R → ℕ → Option (KdnInfo R)
  get_kdn p i = lookup i p.kdns

  abbrev pub store_kdn : KdnPool R → ℕ → KdnInfo R → KdnPool R
  store_kdn p i info = record p { kdns = insert i info p.kdns }

  -- The time of the first registration, or now.
  abbrev pub first_registered : Option (KdnInfo R) → R → R
  first_registered none now = now
  first_registered (some old) now = old.registered_at

  unfoldable pub upsert_kdn : KdnInfo R → R → KdnPool R → KdnPool R
  upsert_kdn info now p = store_kdn p info.kdn_id (record info {
    registered_at = first_registered (get_kdn p info.kdn_id) now;
    last_seen_at = now;
  })

  unfoldable pub heartbeat_kdn : ℕ → Option (KdnLoad R) → R → KdnPool R → Bool × KdnPool R
  heartbeat_kdn i load now p = elim (get_kdn p i) [
    | none ↦ (false, p)
    | some info ↦
        (true, store_kdn p i (record info { last_seen_at = now; load = or_default load info.load }))
  ]

  unfoldable pub remove_kdn : ℕ → KdnPool R → KdnPool R
  remove_kdn i p = record p { kdns = erase i p.kdns }

module _ {R : Type 0} ⦃f : Floats R⦄ where
  -- `(time.time() - last_seen_at) <= ttl_s`
  abbrev pub is_alive_kdn : ℕ → R → KdnInfo R → Bool
  is_alive_kdn ttl_s now info = f.le (f.sub now info.last_seen_at) (f.of_ℕ ttl_s)

  -- `list`, with one reading of the clock for all.
  unfoldable pub list_kdns : Bool → R → KdnPool R → List (KdnInfo R)
  list_kdns include_dead now p =
      if include_dead then values p.kdns else keep (is_alive_kdn p.ttl_s now) (values p.kdns)

  -- `KDNLoad()`
  abbrev pub no_load : KdnLoad R
  no_load = record {
    items = ℤ.pos 0;
    qps_1m = f.of_ℕ 0;
    pending_transfers = ℤ.pos 0;
    active_transfers = ℤ.pos 0;
    network_queue_ms_ema = f.of_ℕ 0;
  }

  unfoldable pub kdn_register : KdnRegisterRequest R → R → KdnPool R → KdnPool R
  kdn_register req now p =
      upsert_kdn
        (record {
          kdn_id = req.kdn_id;
          host = req.host;
          port = req.port;
          endpoints = req.endpoints;
          tags = req.tags;
          weight = req.weight;
          meta = req.meta;
          load = no_load;
          registered_at = now;
          last_seen_at = now;
        })
        now p

  -- The load of a heartbeat, if it has any field of it.
  abbrev pub kdn_request_load : KdnHeartbeatRequest R → Option (KdnLoad R)
  kdn_request_load req =
      if is_some req.items
        || is_some req.qps_1m
        || is_some req.pending_transfers
        || is_some req.active_transfers
        || is_some req.network_queue_ms_ema
      then some (record {
        items = or_default req.items (ℤ.pos 0);
        qps_1m = or_default req.qps_1m (f.of_ℕ 0);
        pending_transfers = or_default req.pending_transfers (ℤ.pos 0);
        active_transfers = or_default req.active_transfers (ℤ.pos 0);
        network_queue_ms_ema = or_default req.network_queue_ms_ema (f.of_ℕ 0);
      })
      else none

  -- `false` is the answer 404.
  unfoldable pub kdn_heartbeat : KdnHeartbeatRequest R → R → KdnPool R → Bool × KdnPool R
  kdn_heartbeat req now p = heartbeat_kdn req.kdn_id (kdn_request_load req) now p
