-- ===== src/Proxy/Pool/Report/Types.antt =====
-- The parts of the report that `build_pool_resource_snapshot` returns.
use cache_route.Common.{ℕ, Option}

pub data Admission : Type 0 where
  accepting degraded rejecting : Admission

pub data Quality : Type 0 where
  missing partly complete : Quality

pub data Source : Type 0 where
  proxy_instance_pool_ttl instance_resource_snapshot proxy_lifecycle_counter instance_heartbeat :
      Source
  derived_from_inflight_capacity derived_from_queue_depth_capacity proxy_config
        proxy_queue_manager :
      Source
  derived_from_instance_resource_admission derived_from_instance_resource_report_time unavailable :
      Source

pub record AdmissionCounts : Type 0 where
  pub accepting : ℕ
  pub degraded : ℕ
  pub rejecting : ℕ

pub record Spread (R : Type 0) : Type 0 where
  pub min : Option R
  pub avg : Option R
  pub max : Option R

pub record MetricSource : Type 0 where
  pub instances : Source
  pub resource : Source
  pub inflight_total : Source
  pub qps_1m_total : Source
  pub load_ratio : Source
  pub capacity : Source
  pub prepare_queue_depth : Source
  pub ready_queue_depth : Source
  pub queue_pressure : Source
  pub utilization : Source
  pub pool_admission_state : Source
  pub resource_freshness_s : Source

pub record MetricQuality : Type 0 where
  pub resource : Quality
  pub load : Quality
  pub queue : Quality

pub record InstanceCounts : Type 0 where
  pub total : ℕ
  pub alive : ℕ
  pub stale : ℕ
  pub with_resource : ℕ
  pub missing_resource : ℕ
  pub admission : AdmissionCounts

pub record PoolLoad (R : Type 0) : Type 0 where
  pub inflight_total : Option ℕ
  pub qps_1m_total : Option R
  pub load_ratio : Option R
  pub capacity : ℕ
  pub prepare_queue_depth : Option ℕ
  pub ready_queue_depth : Option ℕ
  pub queue_pressure : Option R

pub record Utilization (R : Type 0) : Type 0 where
  pub cpu_avg : Option R
  pub cpu_max : Option R
  pub memory_used_mb : Option R
  pub memory_total_mb : Option R
  pub memory_used_ratio : Option R
  pub memory_free_ratio_min : Option R
  pub gpu_util_avg : Option R
  pub gpu_util_max : Option R
  pub gpu_mem_used_mb : Option R
  pub gpu_mem_total_mb : Option R
  pub gpu_mem_used_ratio : Option R
  pub network_rx_mbps_total : Option R
  pub network_tx_mbps_total : Option R

pub record PoolReport (R : Type 0) : Type 0 where
  pub proxy_id : ℕ
  pub generated_at : R
  pub ttl_s : ℕ
  pub metric_source : MetricSource
  pub metric_quality : MetricQuality
  pub resource_freshness_s : Spread R
  pub instances : InstanceCounts
  pub load : PoolLoad R
  pub utilization : Utilization R
  pub pool_admission_state : Admission
  pub pool_admission_reason : ℕ × ℕ × ℕ × ℕ
