-- ===== src/Proxy/Pool.antt =====
-- proxy/resource/instance_pool.py: the registered instances, their liveness and their load.
-- Each method runs under the pool's lock, so it is one step. `now` is `int(time.time())`. What a
-- capability object's fingerprint is (SHA-256 over canonical JSON) is a parameter.
pub mod Admission
pub mod Calls
pub mod Handshake
pub mod Invariant
pub mod Lifecycle
pub mod Liveness
pub mod Report
mod Tests
mod Types
pub use Types.*
use cache_route.Common.{
  ℕ, ◌+◌, ◌-◌, Bool, true, false, not, ◌&&◌, Option, none, some, List, [], ◌∷◌, ◌==◌, leb,
  if◌then◌else◌, is_some, or_default, keep,
}
use cache_route.Common.Dict.{Dict, lookup, insert, erase, contains, update, values}
use cache_route.Common.Text.{Text}
use mathlib.Core.Option

-- The dataclass with its defaults.
abbrev pub plain_result : Bool → HeartbeatResult
plain_result ok = record {
  ok = ok;
  error = none;
  requires_capabilities = false;
  expected_fingerprint = none;
  reported_fingerprint = none;
}

-- `given or old` for an optional list: an empty one counts as not given.
abbrev pub or_list : Option (List Text) → List Text → List Text
or_list none old = old
or_list (some []) old = old
or_list (some (x ∷ xs)) old = x ∷ xs

-- `given if given is not None else old`
abbrev pub or_keep {ℓ} : {A : Type ℓ} → Option A → Option A → Option A
or_keep none old = old
or_keep (some a) old = some a

abbrev pub empty_resource : {R : Type 0} → InstanceResource R
empty_resource = record {
  cpu_util = none;
  memory_used_mb = none;
  memory_total_mb = none;
  memory_free_mb = none;
  memory_free_ratio = none;
  gpu_util_avg = none;
  gpu_util_current = none;
  gpu_util_max = none;
  gpu_sample_count = none;
  gpu_sample_age_ms = none;
  gpu_sample_source = none;
  gpu_sample_quality = none;
  gpu_sample_window_ms = none;
  gpu_mem_used_mb = none;
  gpu_mem_total_mb = none;
  network_rx_mbps = none;
  network_tx_mbps = none;
  admission_state = none;
  resource_ts_ms = none;
  resource_reported_at = none;
  resource_report_monotonic_ms = none;
  resource_report_wall_time_ms = none;
  reported_instance_id = none;
  raw_resource = [];
}

-- `it.capability_fingerprint != value`
abbrev pub differs : Option ℕ → ℕ → Bool
differs none value = true
differs (some known) value = not (known == value)

abbrev pub mismatch_error : Option ℕ → HeartbeatError
mismatch_error none = HeartbeatError.capability_fingerprint_unknown
mismatch_error (some known) = HeartbeatError.capability_fingerprint_mismatch

-- The answer that asks for the whole capabilities.
abbrev pub mismatch : Option ℕ → ℕ → HeartbeatResult
mismatch expected value = record {
  ok = false;
  error = some (mismatch_error expected);
  requires_capabilities = true;
  expected_fingerprint = expected;
  reported_fingerprint = some value;
}

module _ {R C : Type 0} where
  -- `(now - last_seen_at) <= ttl_s`, with the subtraction moved over: it may be negative.
  abbrev pub is_alive : ℕ → ℕ → InstanceInfo R C → Bool
  is_alive ttl_s now it = leb now (ttl_s + it.last_seen_at)

  -- `self._items.get(instance_id)`
  abbrev pub get : InstancePool R C → ℕ → Option (InstanceInfo R C)
  get p i = lookup i p.items

  -- `self._items[instance_id] = it`
  abbrev pub store : InstancePool R C → ℕ → InstanceInfo R C → InstancePool R C
  store p i it = record p { items = insert i it p.items }

  abbrev pub set_inflight : InstanceInfo R C → ℕ → InstanceInfo R C
  set_inflight it n = record it { load = record (it.load) { inflight = some n } }

  unfoldable pub begin_request : ℕ → InstancePool R C → Bool × InstancePool R C
  begin_request i p = elim (get p i) [
    | none ↦ (false, p)
    | some it ↦ (true, store p i (set_inflight it (or_default it.load.inflight 0 + 1)))
  ]

  -- `max(0, current - 1)` is the subtraction of ℕ.
  unfoldable pub end_request : ℕ → InstancePool R C → Bool × InstancePool R C
  end_request i p = elim (get p i) [
    | none ↦ (false, p)
    | some it ↦ (true, store p i (set_inflight it (or_default it.load.inflight 0 - 1)))
  ]

  -- `parse` is what `_resource_from_snapshot` makes of the snapshot at a time.
  unfoldable pub report_resource_snapshot :
      ℕ → (ℕ → InstanceResource R) → ℕ → InstancePool R C → Bool × InstancePool R C
  report_resource_snapshot i parse now p = elim (get p i) [
    | none ↦ (false, p)
    | some it ↦ (true, store p i (record it { last_seen_at = now; resource = parse now }))
  ]

  unfoldable pub remove : ℕ → InstancePool R C → Bool × InstancePool R C
  remove i p = (contains i p.items, record p { items = erase i p.items })

  -- `list` is a word of the model's language for a type, so the method is `list_instances`.
  unfoldable pub list_instances : Bool → ℕ → InstancePool R C → List (InstanceInfo R C)
  list_instances include_dead now p =
      if include_dead then values p.items else keep (is_alive p.ttl_s now) (values p.items)

  -- A fingerprint that comes without the capabilities and is not the one on record.
  abbrev pub reported_mismatch : Beat R C → InstanceInfo R C → Option ℕ
  reported_mismatch b it = elim b.fingerprint [
    | none ↦ none
    | some value ↦
        if not (is_some b.capabilities) && differs it.capability_fingerprint value
        then some value
        else none
  ]

module _ {R C : Type 0} (fingerprint : C → ℕ) where
  -- The branch of `upsert` for a known instance.
  register_again : Registration R C → ℕ → InstanceInfo R C → InstanceInfo R C
  register_again r now it = record it {
    host = r.host;
    port = r.port;
    endpoints = or_list r.endpoints it.endpoints;
    tags = or_list r.tags it.tags;
    weight = r.weight;
    meta = update it.meta (or_default r.meta []);
    capabilities = r.capabilities;
    capability_fingerprint = Option.map fingerprint r.capabilities;
    load = record (it.load) { inflight = some (or_default it.load.inflight 0) };
    last_seen_at = now;
  }

  register_new : Registration R C → ℕ → InstanceInfo R C
  register_new r now = record {
    instance_id = r.instance_id;
    host = r.host;
    port = r.port;
    endpoints = or_list r.endpoints [];
    tags = or_list r.tags [];
    weight = r.weight;
    meta = or_default r.meta [];
    capabilities = r.capabilities;
    capability_fingerprint = Option.map fingerprint r.capabilities;
    load = record { inflight = some 0; qps_1m = none; gpu_util = none };
    resource = empty_resource;
    registered_at = now;
    last_seen_at = now;
  }

  unfoldable pub upsert :
      Registration R C → ℕ → InstancePool R C → InstanceInfo R C × InstancePool R C
  unfolding register_again register_new
  upsert r now p = elim (get p r.instance_id) [
    | some it ↦ let it' = register_again r now it in (it', store p r.instance_id it')
    | none ↦ let it' = register_new r now in (it', store p r.instance_id it')
  ]

  -- The assignments of an accepted heartbeat.
  refresh : Beat R C → ℕ → InstanceInfo R C → InstanceInfo R C
  refresh b now it = record it {
    last_seen_at = now;
    load = record (it.load) {
      qps_1m = or_keep b.qps_1m it.load.qps_1m;
      gpu_util = or_keep b.gpu_util it.load.gpu_util;
    };
    capabilities = or_keep b.capabilities it.capabilities;
    capability_fingerprint =
        or_keep (Option.map fingerprint b.capabilities) it.capability_fingerprint;
  }

  unfoldable pub heartbeat : Beat R C → ℕ → InstancePool R C → HeartbeatResult × InstancePool R C
  unfolding refresh
  heartbeat b now p = elim (get p b.instance_id) [
    | none ↦ (plain_result false, p)
    | some it ↦ elim (reported_mismatch b it) [
      | some value ↦ (mismatch it.capability_fingerprint value, p)
      | none ↦ (plain_result true, store p b.instance_id (refresh b now it))
    ]
  ]
