-- ===== src/Proxy/Pool/Types.antt =====
-- The pool's state and the arguments and answers of its methods: the dataclasses of
-- proxy/resource/instance_pool.py.
use cache_route.Common.{ℕ, Bool, Option, List}
use cache_route.Common.Dict.{Dict}
use cache_route.Common.Text.{Text}

pub record InstanceLoad (R : Type 0) : Type 0 where
  pub inflight : Option ℕ
  pub qps_1m : Option R
  pub gpu_util : Option R

pub record InstanceResource (R : Type 0) : Type 0 where
  pub cpu_util : Option R
  pub memory_used_mb : Option R
  pub memory_total_mb : Option R
  pub memory_free_mb : Option R
  pub memory_free_ratio : Option R
  pub gpu_util_avg : Option R
  pub gpu_util_current : Option R
  pub gpu_util_max : Option R
  pub gpu_sample_count : Option ℕ
  pub gpu_sample_age_ms : Option ℕ
  pub gpu_sample_source : Option Text
  pub gpu_sample_quality : Option Text
  pub gpu_sample_window_ms : Option ℕ
  pub gpu_mem_used_mb : Option R
  pub gpu_mem_total_mb : Option R
  pub network_rx_mbps : Option R
  pub network_tx_mbps : Option R
  pub admission_state : Option Text
  pub resource_ts_ms : Option ℕ
  pub resource_reported_at : Option ℕ
  pub resource_report_monotonic_ms : Option ℕ
  pub resource_report_wall_time_ms : Option ℕ
  pub reported_instance_id : Option Text
  pub raw_resource : Dict ℕ

pub record InstanceInfo (R C : Type 0) : Type 0 where
  pub instance_id : ℕ
  pub host : Text
  pub port : ℕ
  pub endpoints : List Text
  pub tags : List Text
  pub weight : R
  pub meta : Dict ℕ
  pub capabilities : Option C
  pub capability_fingerprint : Option ℕ
  pub load : InstanceLoad R
  pub resource : InstanceResource R
  pub registered_at : ℕ
  pub last_seen_at : ℕ

pub record InstancePool (R C : Type 0) : Type 0 where
  pub ttl_s : ℕ
  pub items : Dict (InstanceInfo R C)

-- The arguments of `upsert`.
pub record Registration (R C : Type 0) : Type 0 where
  pub instance_id : ℕ
  pub host : Text
  pub port : ℕ
  pub endpoints : Option (List Text)
  pub tags : Option (List Text)
  pub weight : R
  pub meta : Option (Dict ℕ)
  pub capabilities : Option C

-- The arguments of `heartbeat`.
pub record Beat (R C : Type 0) : Type 0 where
  pub instance_id : ℕ
  pub inflight : Option ℕ
  pub qps_1m : Option R
  pub gpu_util : Option R
  pub capabilities : Option C
  pub fingerprint : Option ℕ

pub data HeartbeatError : Type 0 where
  capability_fingerprint_unknown capability_fingerprint_mismatch : HeartbeatError

pub record HeartbeatResult : Type 0 where
  pub ok : Bool
  pub error : Option HeartbeatError
  pub requires_capabilities : Bool
  pub expected_fingerprint : Option ℕ
  pub reported_fingerprint : Option ℕ
