-- ===== src/Proxy/Pool/Report.antt =====
-- `build_pool_resource_snapshot`: what the proxy tells the scheduler about its whole pool. The
-- clock is read in milliseconds here, since `time.time()` keeps its fraction; a `float` of seconds
-- is that number over 1000. The reason text is kept as the four numbers that it prints.
mod Types
pub use Types.*
use cache_route.Common.{
  ℕ, ◌+◌, ◌-◌, ◌*◌, Bool, true, false, ◌&&◌, ◌||◌, not, Option, none, some, List, [], ◌∷◌, map, max,
  ◌==◌, leb, ltb, if◌then◌else◌, is_some, or_default, keep, length,
}
use cache_route.Common.Dict.{values}
use cache_route.Common.Text.{Text, codes, strip, lower, text_eq}
use cache_route.Common.Floats.{Floats, sum, sum?, min?, max?, lt}
use cache_route.Proxy.Pool.{InstanceInfo, InstancePool}
use mathlib.Core.Option

abbrev pub is_empty {ℓ} : {A : Type ℓ} → List A → Bool
is_empty [] = true
is_empty (x ∷ xs) = false

-- `[f(x) for x in xs if f(x) is not None]`
abbrev pub present {ℓ κ} : {A : Type ℓ} {B : Type κ} → (A → Option B) → List A → List B
present f [] = []
present f (x ∷ xs) = elim (f x) [ none ↦ present f xs | some b ↦ b ∷ present f xs ]

-- `sum(xs)` on whole numbers.
abbrev pub total : List ℕ → ℕ
total [] = 0
total (n ∷ ns) = n + total ns

-- `sum(xs) if xs else None`
abbrev pub total? : List ℕ → Option ℕ
total? [] = none
total? (n ∷ ns) = some (total (n ∷ ns))

-- `_quality`
unfoldable pub quality : ℕ → ℕ → Quality
quality populated expected =
    if (expected == 0) || (populated == 0)
    then Quality.missing
    else if leb expected populated
    then Quality.complete
    else Quality.partly

abbrev pub when : Bool → Source → Source
when b s = if b then s else Source.unavailable

-- `str.strip().lower()` of the admission state, looked up among the three names.
unfoldable pub admission_of : Option Text → Option Admission
admission_of state =
    let name = lower (strip (or_default state [])) in
    if text_eq name (codes "accepting")
    then some Admission.accepting
    else if text_eq name (codes "degraded")
    then some Admission.degraded
    else if text_eq name (codes "rejecting")
    then some Admission.rejecting
    else none

abbrev pub add_admission : Option Admission → AdmissionCounts → AdmissionCounts
add_admission none c = c
add_admission (some Admission.accepting) c = record c { accepting = c.accepting + 1 }
add_admission (some Admission.degraded) c = record c { degraded = c.degraded + 1 }
add_admission (some Admission.rejecting) c = record c { rejecting = c.rejecting + 1 }

-- The queue depths together, if one of them is known.
unfoldable pub queued_total : Option ℕ → Option ℕ → Option ℕ
queued_total prepare ready =
    if is_some prepare || is_some ready
    then some (or_default prepare 0 + or_default ready 0)
    else none

module _ {R C : Type 0} where
  -- `(now - float(last_seen_at)) <= ttl_s`
  abbrev pub is_alive_ms : ℕ → ℕ → InstanceInfo R C → Bool
  is_alive_ms ttl_s now_ms it = leb now_ms ((ttl_s + it.last_seen_at) * 1000)

  abbrev pub has_resource : InstanceInfo R C → Bool
  has_resource it =
      not (is_empty it.resource.raw_resource) && is_some it.resource.resource_reported_at

  -- The loop that fills `alive_items` and counts the stale ones.
  unfoldable pub split_alive : ℕ → ℕ → List (InstanceInfo R C) → List (InstanceInfo R C) × ℕ
  split_alive ttl_s now_ms [] = ([], 0)
  split_alive ttl_s now_ms (it ∷ items) =
      let (alive, stale) = split_alive ttl_s now_ms items in
      if is_alive_ms ttl_s now_ms it then (it ∷ alive, stale) else (alive, stale + 1)

  unfoldable pub count_admissions : List (InstanceInfo R C) → AdmissionCounts
  count_admissions [] = record { accepting = 0; degraded = 0; rejecting = 0 }
  count_admissions (it ∷ items) =
      add_admission (admission_of it.resource.admission_state) (count_admissions items)

  -- `pool_state`, from the alive instances, those of them that report, and their counts.
  unfoldable pub pool_state :
      List (InstanceInfo R C) → List (InstanceInfo R C) → AdmissionCounts → Admission
  pool_state alive reporting counts =
      let missing_resource = length alive - length reporting in
      if length alive == 0
      then Admission.rejecting
      else if not (is_empty reporting)
          && (counts.rejecting == length reporting)
          && (missing_resource == 0)
      then Admission.rejecting
      else if ltb 0 counts.degraded || ltb 0 counts.rejecting || ltb 0 missing_resource
      then Admission.degraded
      else Admission.accepting

module _ {R : Type 0} ⦃f : Floats R⦄ where
  -- `_avg`
  avg : List R → Option R
  avg [] = none
  avg (x ∷ xs) = some (f.div (sum (x ∷ xs)) (f.of_ℕ (length (x ∷ xs))))

  -- `_min_avg_max`
  min_avg_max : List R → Spread R
  unfolding avg
  min_avg_max xs = record { min = min? xs; avg = avg xs; max = max? xs }

  -- `_ratio`
  unfoldable pub ratio : Option R → Option R → Option R
  ratio none whole = none
  ratio (some used) none = none
  ratio (some used) (some whole) = if lt (f.of_ℕ 0) whole then some (f.div used whole) else none

module _ {R C : Type 0} ⦃f : Floats R⦄ where
  -- `max(0.0, now - float(resource_reported_at or now))`
  freshness : ℕ → InstanceInfo R C → R
  freshness now_ms it =
      let reported = or_default it.resource.resource_reported_at 0 in
      f.div (f.of_ℕ (if reported == 0 then 0 else now_ms - reported * 1000)) (f.of_ℕ 1000)

  utilization_of : List (InstanceInfo R C) → Utilization R
  unfolding avg ratio
  utilization_of reporting =
      let mem_used = sum? (present (λ it. it.resource.memory_used_mb) reporting) in
      let mem_total = sum? (present (λ it. it.resource.memory_total_mb) reporting) in
      let gpu_mem_used = sum? (present (λ it. it.resource.gpu_mem_used_mb) reporting) in
      let gpu_mem_total = sum? (present (λ it. it.resource.gpu_mem_total_mb) reporting) in
      record {
        cpu_avg = avg (present (λ it. it.resource.cpu_util) reporting);
        cpu_max = max? (present (λ it. it.resource.cpu_util) reporting);
        memory_used_mb = mem_used;
        memory_total_mb = mem_total;
        memory_used_ratio = ratio mem_used mem_total;
        memory_free_ratio_min = min? (present (λ it. it.resource.memory_free_ratio) reporting);
        gpu_util_avg = avg (present (λ it. it.resource.gpu_util_avg) reporting);
        gpu_util_max = max? (present (λ it. it.resource.gpu_util_avg) reporting);
        gpu_mem_used_mb = gpu_mem_used;
        gpu_mem_total_mb = gpu_mem_total;
        gpu_mem_used_ratio = ratio gpu_mem_used gpu_mem_total;
        network_rx_mbps_total = sum? (present (λ it. it.resource.network_rx_mbps) reporting);
        network_tx_mbps_total = sum? (present (λ it. it.resource.network_tx_mbps) reporting);
      }

  -- `proxy_id`, `capacity` and the two queue depths are the method's arguments.
  unfoldable pub build_report : ℕ → ℕ → Option ℕ → Option ℕ → ℕ → InstancePool R C → PoolReport R
  unfolding split_alive count_admissions pool_state quality queued_total min_avg_max ratio freshness
      utilization_of
  build_report proxy_id capacity prepare ready now_ms p =
      let items = values p.items in
      let (alive, stale) = split_alive p.ttl_s now_ms items in
      let reporting = keep has_resource alive in
      let counts = count_admissions reporting in
      let missing_resource = length alive - length reporting in
      let inflight_values = present (λ it. it.load.inflight) alive in
      let qps_values = present (λ it. it.load.qps_1m) alive in
      let inflight_total = total? inflight_values in
      let load_ratio = ratio (Option.map f.of_ℕ inflight_total) (some (f.of_ℕ capacity)) in
      let queue_pressure =
        ratio (Option.map f.of_ℕ (queued_total prepare ready)) (some (f.of_ℕ capacity)) in
      let reports = not (is_empty reporting) in
      record {
        proxy_id = proxy_id;
        generated_at = f.div (f.of_ℕ now_ms) (f.of_ℕ 1000);
        ttl_s = p.ttl_s;
        metric_source = record {
          instances = Source.proxy_instance_pool_ttl;
          resource = when reports Source.instance_resource_snapshot;
          inflight_total = when (not (is_empty inflight_values)) Source.proxy_lifecycle_counter;
          qps_1m_total = when (not (is_empty qps_values)) Source.instance_heartbeat;
          load_ratio = when (is_some load_ratio) Source.derived_from_inflight_capacity;
          capacity = Source.proxy_config;
          prepare_queue_depth = when (is_some prepare) Source.proxy_queue_manager;
          ready_queue_depth = when (is_some ready) Source.proxy_queue_manager;
          queue_pressure = when (is_some queue_pressure) Source.derived_from_queue_depth_capacity;
          utilization = when reports Source.instance_resource_snapshot;
          pool_admission_state = Source.derived_from_instance_resource_admission;
          resource_freshness_s = when reports Source.derived_from_instance_resource_report_time;
        };
        metric_quality = record {
          resource = quality (length reporting) (length alive);
          load =
              if is_empty alive
              then Quality.missing
              else quality (length inflight_values + length qps_values) (max 1 (length alive * 2));
          queue = if is_some prepare && is_some ready then Quality.complete else Quality.missing;
        };
        resource_freshness_s = min_avg_max (map (freshness now_ms) reporting);
        instances = record {
          total = length items;
          alive = length alive;
          stale = stale;
          with_resource = length reporting;
          missing_resource = missing_resource;
          admission = counts;
        };
        load = record {
          inflight_total = inflight_total;
          qps_1m_total = sum? qps_values;
          load_ratio = load_ratio;
          capacity = capacity;
          prepare_queue_depth = prepare;
          ready_queue_depth = ready;
          queue_pressure = queue_pressure;
        };
        utilization = utilization_of reporting;
        pool_admission_state = pool_state alive reporting counts;
        pool_admission_reason = (counts.accepting, counts.degraded, counts.rejecting, length alive);
      }
