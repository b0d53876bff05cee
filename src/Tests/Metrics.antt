-- ===== src/Tests/Metrics.antt =====
-- sdk/metric_envelope.go on a small batch.
use serviceradar_sdk_go.Base.{true, [], ◌∷◌, ◌≡◌, some, arith}
use serviceradar_sdk_go.Strings.{str, pos, negsuc}
use serviceradar_sdk_go.Metric.{
  MetricStringMapEntry, MetricResource, MetricIngestIdentity, MetricPoint, Metric, MetricBatch,
}
use serviceradar_sdk_go.Metric.Encoder.{metric_proto, metric_point_proto, metric_batch_proto}
use serviceradar_sdk_go.Metric.Wire.{parse}
use serviceradar_sdk_go.Metric.Schema.{point_fields, metric_fields, batch_fields}
use serviceradar_sdk_go.Metric.Schema.Agreement.{
  parse-metric_proto, parse-metric_point_proto, parse-metric_batch_proto,
}

abbrev entry : MetricStringMapEntry
entry = record { key = str "if"; value = str "eth0" }

abbrev point : MetricPoint
point = record {
  value = 4611686018427387904;
  raw_value = str "2";
  raw_value_type = pos 1;
  observed_at_unix_nano = 300;
  start_time_unix_nano = 0;
  reset_anchor = [];
  if_index = negsuc 0;
  interface_uid = [];
  series_identity_hint = [];
  attributes = entry ∷ [];
  metadata = [];
}

abbrev metric : Metric
metric = record {
  name = str "octets";
  metric_type = str "snmp";
  kind = pos 1;
  temporality = pos 2;
  is_monotonic = true;
  unit = str "By";
  scale = 0;
  counter_width = 64;
  points = point ∷ [];
  tags = [];
  metadata = [];
  thresholds = [];
}

abbrev resource : MetricResource
resource = record {
  agent_id = str "a";
  gateway_id = [];
  partition = [];
  service_name = [];
  service_type = [];
  host_id = [];
  host_ip = [];
  target_device_ip = [];
  device_id = [];
  kv_store_id = [];
  attributes = [];
}

abbrev identity : MetricIngestIdentity
identity = record {
  source = str "p";
  payload_kind = [];
  producer_id = [];
  producer_kind = [];
  attested_by = [];
  attributes = entry ∷ [];
}

abbrev batch : MetricBatch
batch = record {
  schema_version = [];
  resource = resource;
  ingest_identity = identity;
  ingress_id = [];
  ingress_timestamp_unix_nano = 0;
  emitted_at_unix_nano = 300;
  metrics = metric ∷ [];
}

parse-metric_point_proto_example : parse (metric_point_proto point) ≡ some (point_fields point)
parse-metric_point_proto_example = parse-metric_point_proto point (ground arith)

parse-metric_proto_example : parse (metric_proto metric) ≡ some (metric_fields metric)
parse-metric_proto_example = parse-metric_proto metric (ground arith)

parse-metric_batch_proto_example : parse (metric_batch_proto batch) ≡ some (batch_fields batch)
parse-metric_batch_proto_example = parse-metric_batch_proto batch
