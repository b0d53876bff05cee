-- ===== src/Metric.antt =====
-- sdk/metric_envelope.go: the types of serviceradar.metric.v1.
-- A float64 is the 64 bits that math.Float64bits gives, an int32 is a ℤ, an unsigned integer a ℕ.
pub mod Encoder
pub mod Wire
pub mod Schema
use serviceradar_sdk_go.Base.{ℕ, Bool, List}
use serviceradar_sdk_go.Strings.{Bytes, ℤ}

pub record MetricStringMapEntry : Type 0 where
  pub key : Bytes
  pub value : Bytes

pub record MetricResource : Type 0 where
  pub agent_id : Bytes
  pub gateway_id : Bytes
  pub partition : Bytes
  pub service_name : Bytes
  pub service_type : Bytes
  pub host_id : Bytes
  pub host_ip : Bytes
  pub target_device_ip : Bytes
  pub device_id : Bytes
  pub kv_store_id : Bytes
  pub attributes : List MetricStringMapEntry

pub record MetricIngestIdentity : Type 0 where
  pub source : Bytes
  pub payload_kind : Bytes
  pub producer_id : Bytes
  pub producer_kind : Bytes
  pub attested_by : Bytes
  pub attributes : List MetricStringMapEntry

pub record MetricPoint : Type 0 where
  pub value : ℕ
  pub raw_value : Bytes
  pub raw_value_type : ℤ
  pub observed_at_unix_nano : ℕ
  pub start_time_unix_nano : ℕ
  pub reset_anchor : Bytes
  pub if_index : ℤ
  pub interface_uid : Bytes
  pub series_identity_hint : Bytes
  pub attributes : List MetricStringMapEntry
  pub metadata : List MetricStringMapEntry

pub record Metric : Type 0 where
  pub name : Bytes
  pub metric_type : Bytes
  pub kind : ℤ
  pub temporality : ℤ
  pub is_monotonic : Bool
  pub unit : Bytes
  pub scale : ℕ
  pub counter_width : ℕ
  pub points : List MetricPoint
  pub tags : List MetricStringMapEntry
  pub metadata : List MetricStringMapEntry
  pub thresholds : List MetricStringMapEntry

pub record MetricBatch : Type 0 where
  pub schema_version : Bytes
  pub resource : MetricResource
  pub ingest_identity : MetricIngestIdentity
  pub ingress_id : Bytes
  pub ingress_timestamp_unix_nano : ℕ
  pub emitted_at_unix_nano : ℕ
  pub metrics : List Metric
