-- ===== src/Metric/Schema.antt =====
-- The schema of serviceradar.metric.v1: for each message of sdk/metric_envelope.go the fields,
-- with their numbers and wire types, that a protobuf parser must find in it. proto3 leaves a
-- field with the default value out.
pub mod Agreement
use serviceradar_sdk_go.Base.{
  ℕ, ◌-◌, ◌^◌, Bool, not, ◌||◌, List, [], ◌∷◌, ◌++◌, ◌==◌, if◌then◌else◌, null,
}
use serviceradar_sdk_go.Strings.{Bytes, str, ℤ, pos, negsuc, eqℤ}
use serviceradar_sdk_go.Metric.{
  MetricStringMapEntry, MetricResource, MetricIngestIdentity, MetricPoint, Metric, MetricBatch,
}
use serviceradar_sdk_go.Metric.Wire.{WireField, varint, fixed64, chunk, encode_fields}

unfoldable pub bytes_field : ℕ → Bytes → List WireField
bytes_field n value = if null value then [] else record { number = n; wire = chunk value } ∷ []

-- The 64 bits of a number: below zero, the complement of those of the number before its negation.
abbrev pub two_complement : ℤ → ℕ
two_complement (pos n) = n
two_complement (negsuc n) = 2 ^ 64 - 1 - n

unfoldable pub int32_field : ℕ → ℤ → List WireField
int32_field n value =
    if eqℤ value (pos 0)
    then []
    else record { number = n; wire = varint (two_complement value) } ∷ []

unfoldable pub unsigned_field : ℕ → ℕ → List WireField
unsigned_field n value = if value == 0 then [] else record { number = n; wire = varint value } ∷ []

unfoldable pub bool_field : ℕ → Bool → List WireField
bool_field n value = if not value then [] else record { number = n; wire = varint 1 } ∷ []

-- The two zeros of a float64: no bit is set but, in one of them, that of the sign.
abbrev pub is_zero : ℕ → Bool
is_zero bits = bits == 0 || bits == 2 ^ 63

unfoldable pub double_field : ℕ → ℕ → List WireField
double_field n bits = if is_zero bits then [] else record { number = n; wire = fixed64 bits } ∷ []

-- One field for each element that is not an empty message.
unfoldable pub repeated {ℓ} : {A : Type ℓ} → ℕ → (A → Bytes) → List A → List WireField
unfolding bytes_field
repeated n message [] = []
repeated n message (x ∷ xs) = bytes_field n (message x) ++ repeated n message xs

unfoldable pub entry_fields : MetricStringMapEntry → List WireField
entry_fields e = bytes_field 1 e.key ++ bytes_field 2 e.value

-- A message in a field is the bytes of its own fields.
abbrev pub entry_message : MetricStringMapEntry → Bytes
entry_message e = encode_fields (entry_fields e)

abbrev pub entries : ℕ → List MetricStringMapEntry → List WireField
entries n = repeated n entry_message

unfoldable pub resource_fields : MetricResource → List WireField
resource_fields r =
    bytes_field 1 r.agent_id
    ++ (bytes_field 2 r.gateway_id
        ++ (bytes_field 3 r.partition
            ++ (bytes_field 4 r.service_name
                ++ (bytes_field 5 r.service_type
                    ++ (bytes_field 6 r.host_id
                        ++ (bytes_field 7 r.host_ip
                            ++ (bytes_field 8 r.target_device_ip
                                ++ (bytes_field 9 r.device_id
                                    ++ (bytes_field 10 r.kv_store_id
                                        ++ entries 20 r.attributes)))))))))

unfoldable pub identity_fields : MetricIngestIdentity → List WireField
identity_fields i =
    bytes_field 1 i.source
    ++ (bytes_field 2 i.payload_kind
        ++ (bytes_field 3 i.producer_id
            ++ (bytes_field 4 i.producer_kind
                ++ (bytes_field 5 i.attested_by ++ entries 20 i.attributes))))

unfoldable pub point_fields : MetricPoint → List WireField
point_fields p =
    double_field 1 p.value
    ++ (bytes_field 2 p.raw_value
        ++ (int32_field 3 p.raw_value_type
            ++ (unsigned_field 4 p.observed_at_unix_nano
                ++ (unsigned_field 5 p.start_time_unix_nano
                    ++ (bytes_field 6 p.reset_anchor
                        ++ (int32_field 7 p.if_index
                            ++ (bytes_field 8 p.interface_uid
                                ++ (bytes_field 9 p.series_identity_hint
                                    ++ (entries 20 p.attributes ++ entries 21 p.metadata)))))))))

abbrev pub point_message : MetricPoint → Bytes
point_message p = encode_fields (point_fields p)

unfoldable pub metric_fields : Metric → List WireField
metric_fields m =
    bytes_field 1 m.name
    ++ (bytes_field 2 m.metric_type
        ++ (int32_field 3 m.kind
            ++ (int32_field 4 m.temporality
                ++ (bool_field 5 m.is_monotonic
                    ++ (bytes_field 6 m.unit
                        ++ (double_field 7 m.scale
                            ++ (unsigned_field 8 m.counter_width
                                ++ (repeated 20 point_message m.points
                                    ++ (entries 30 m.tags
                                        ++ (entries 31 m.metadata
                                            ++ entries 32 m.thresholds))))))))))

abbrev pub metric_message : Metric → Bytes
metric_message m = encode_fields (metric_fields m)

-- The version that an empty schema version or payload kind stands for.
abbrev pub or_v1 : Bytes → Bytes
or_v1 value = if null value then str "serviceradar.metric.v1" else value

unfoldable pub batch_fields : MetricBatch → List WireField
batch_fields b =
    let i = b.ingest_identity in
    bytes_field 1 (or_v1 b.schema_version)
    ++ (bytes_field 2 (encode_fields (resource_fields b.resource))
        ++ (bytes_field 3
              (encode_fields (identity_fields (record i { payload_kind = or_v1 i.payload_kind })))
            ++ (bytes_field 4 b.ingress_id
                ++ (unsigned_field 5 b.ingress_timestamp_unix_nano
                    ++ (unsigned_field 6 b.emitted_at_unix_nano
                        ++ repeated 20 metric_message b.metrics)))))
