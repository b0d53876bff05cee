-- ===== src/Metric/Encoder.antt =====
-- sdk/metric_envelope.go: the protobuf encoder of metric batches.
use mathlib.Core.WellFounded.{Acc}
use mathlib.Core.Logic.{dite}
use native.Mathlib.Decide.{dec_lt}
use serviceradar_sdk_go.Base.{
  ℕ, zero, suc, ◌+◌, ◌-◌, ◌*◌, ◌/◌, ◌%◌, ◌^◌, ◌<◌, Bool, not, ◌||◌, List, [], ◌∷◌, ◌++◌, ◌==◌,
  if◌then◌else◌, null, length, arith, lt_wf,
}
use serviceradar_sdk_go.Strings.{Bytes, str, ℤ, pos, negsuc, eqℤ}
use serviceradar_sdk_go.Metric.{
  MetricStringMapEntry, MetricResource, MetricIngestIdentity, MetricPoint, Metric, MetricBatch,
}

-- `for x >= 0x80 { append(byte(x)|0x80); x >>= 7 }; append(byte(x))` of binary.AppendUvarint
unfoldable pub uvarint_acc : (x : ℕ) → Acc ◌<◌ x → Bytes
uvarint_acc x (Acc.intro _ smaller) =
    dite (dec_lt 127 x)
      (λ more. (x % 128 + 128) ∷ uvarint_acc (x / 128) (smaller (x / 128) (omega arith)))
      (λ _. x ∷ [])

unfoldable pub uvarint : ℕ → Bytes
unfolding uvarint_acc lt_wf
uvarint x = uvarint_acc x (lt_wf.apply x)

abbrev pub append_uvarint : Bytes → ℕ → Bytes
append_uvarint out x = out ++ uvarint x

-- `uint64(field<<3|wireType)`
abbrev pub append_tag : Bytes → ℕ → ℕ → Bytes
append_tag out field wire_type = append_uvarint out (field * 8 + wire_type)

unfoldable pub append_string_field : Bytes → ℕ → Bytes → Bytes
append_string_field out field value =
    if null value then out else append_uvarint (append_tag out field 2) (length value) ++ value

unfoldable pub append_message_field : Bytes → ℕ → Bytes → Bytes
append_message_field out field value =
    if null value then out else append_uvarint (append_tag out field 2) (length value) ++ value

-- `uint64(value)` of an int32: the sign is extended
abbrev pub sign_extended : ℤ → ℕ
sign_extended (pos n) = n
sign_extended (negsuc n) = 2 ^ 64 - (n + 1)

unfoldable pub append_int32_field : Bytes → ℕ → ℤ → Bytes
append_int32_field out field value =
    if eqℤ value (pos 0) then out else append_uvarint (append_tag out field 0) (sign_extended value)

unfoldable pub append_uint32_field : Bytes → ℕ → ℕ → Bytes
append_uint32_field out field value =
    if value == 0 then out else append_uvarint (append_tag out field 0) value

unfoldable pub append_uint64_field : Bytes → ℕ → ℕ → Bytes
append_uint64_field out field value =
    if value == 0 then out else append_uvarint (append_tag out field 0) value

unfoldable pub append_bool_field : Bytes → ℕ → Bool → Bytes
append_bool_field out field value = if not value then out else append_tag out field 0 ++ (1 ∷ [])

-- binary.LittleEndian.PutUint64 for eight bytes
unfoldable pub little_endian : ℕ → ℕ → Bytes
little_endian zero n = []
little_endian (suc k) n = n % 256 ∷ little_endian k (n / 256)

-- `value == 0` for the bits of a float64: 0 and -0
abbrev pub is_zero_double : ℕ → Bool
is_zero_double bits = bits == 0 || bits == 0x8000000000000000

unfoldable pub append_double_field : Bytes → ℕ → ℕ → Bytes
append_double_field out field value =
    if is_zero_double value then out else append_tag out field 1 ++ little_endian 8 value

unfoldable pub string_map_entry_proto : MetricStringMapEntry → Bytes
string_map_entry_proto entry =
    append_string_field (append_string_field [] 1 entry.key) 2 entry.value

unfoldable pub append_string_map_entries : Bytes → ℕ → List MetricStringMapEntry → Bytes
append_string_map_entries out field [] = out
append_string_map_entries out field (entry ∷ entries) =
    append_string_map_entries (append_message_field out field (string_map_entry_proto entry)) field
      entries

unfoldable pub metric_resource_proto : MetricResource → Bytes
metric_resource_proto resource =
    let out = append_string_field [] 1 resource.agent_id in
    let out = append_string_field out 2 resource.gateway_id in
    let out = append_string_field out 3 resource.partition in
    let out = append_string_field out 4 resource.service_name in
    let out = append_string_field out 5 resource.service_type in
    let out = append_string_field out 6 resource.host_id in
    let out = append_string_field out 7 resource.host_ip in
    let out = append_string_field out 8 resource.target_device_ip in
    let out = append_string_field out 9 resource.device_id in
    let out = append_string_field out 10 resource.kv_store_id in
    append_string_map_entries out 20 resource.attributes

unfoldable pub metric_ingest_identity_proto : MetricIngestIdentity → Bytes
metric_ingest_identity_proto identity =
    let out = append_string_field [] 1 identity.source in
    let out = append_string_field out 2 identity.payload_kind in
    let out = append_string_field out 3 identity.producer_id in
    let out = append_string_field out 4 identity.producer_kind in
    let out = append_string_field out 5 identity.attested_by in
    append_string_map_entries out 20 identity.attributes

unfoldable pub metric_point_proto : MetricPoint → Bytes
metric_point_proto point =
    let out = append_double_field [] 1 point.value in
    let out = append_string_field out 2 point.raw_value in
    let out = append_int32_field out 3 point.raw_value_type in
    let out = append_uint64_field out 4 point.observed_at_unix_nano in
    let out = append_uint64_field out 5 point.start_time_unix_nano in
    let out = append_string_field out 6 point.reset_anchor in
    let out = append_int32_field out 7 point.if_index in
    let out = append_string_field out 8 point.interface_uid in
    let out = append_string_field out 9 point.series_identity_hint in
    let out = append_string_map_entries out 20 point.attributes in
    append_string_map_entries out 21 point.metadata

unfoldable pub append_points : Bytes → List MetricPoint → Bytes
append_points out [] = out
append_points out (point ∷ points) =
    append_points (append_message_field out 20 (metric_point_proto point)) points

unfoldable pub metric_proto : Metric → Bytes
unfolding append_points
metric_proto metric =
    let out = append_string_field [] 1 metric.name in
    let out = append_string_field out 2 metric.metric_type in
    let out = append_int32_field out 3 metric.kind in
    let out = append_int32_field out 4 metric.temporality in
    let out = append_bool_field out 5 metric.is_monotonic in
    let out = append_string_field out 6 metric.unit in
    let out = append_double_field out 7 metric.scale in
    let out = append_uint32_field out 8 metric.counter_width in
    let out = append_points out metric.points in
    let out = append_string_map_entries out 30 metric.tags in
    let out = append_string_map_entries out 31 metric.metadata in
    append_string_map_entries out 32 metric.thresholds

unfoldable pub append_metrics : Bytes → List Metric → Bytes
append_metrics out [] = out
append_metrics out (metric ∷ metrics) =
    append_metrics (append_message_field out 20 (metric_proto metric)) metrics

abbrev pub metric_envelope_schema_version : Bytes
metric_envelope_schema_version = str "serviceradar.metric.v1"

-- The two defaults at the head of metricBatchProto.
unfoldable pub with_defaults : MetricBatch → MetricBatch
with_defaults batch =
    let identity = batch.ingest_identity in
    record batch {
      schema_version =
          if null batch.schema_version
          then metric_envelope_schema_version
          else batch.schema_version;
      ingest_identity = record identity {
        payload_kind =
            if null identity.payload_kind
            then metric_envelope_schema_version
            else identity.payload_kind;
      };
    }

unfoldable pub metric_batch_proto : MetricBatch → Bytes
unfolding append_metrics
metric_batch_proto given =
    let batch = with_defaults given in
    let out = append_string_field [] 1 batch.schema_version in
    let out = append_message_field out 2 (metric_resource_proto batch.resource) in
    let out = append_message_field out 3 (metric_ingest_identity_proto batch.ingest_identity) in
    let out = append_string_field out 4 batch.ingress_id in
    let out = append_uint64_field out 5 batch.ingress_timestamp_unix_nano in
    let out = append_uint64_field out 6 batch.emitted_at_unix_nano in
    append_metrics out batch.metrics
