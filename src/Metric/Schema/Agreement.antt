-- ===== src/Metric/Schema/Agreement.antt =====
-- The encoder of sdk/metric_envelope.go writes the fields of the schema.
use native.Mathlib.Decide.{dec_lt}
use serviceradar_sdk_go.Base.{
  ℕ, ◌<◌, ◌^◌, Bool, true, false, not, List, [], ◌∷◌, ◌++◌, ◌≡◌, refl, ◌∙◌, ◌==◌, if◌then◌else◌,
  append_assoc, append-nil, some, arith,
}
use serviceradar_sdk_go.Strings.{Bytes, ℤ, pos, negsuc, eqℤ}
use serviceradar_sdk_go.Metric.{
  MetricStringMapEntry, MetricResource, MetricIngestIdentity, MetricPoint, Metric, MetricBatch,
}
use serviceradar_sdk_go.Metric.Encoder.{
  uvarint, sign_extended, append_string_field, append_message_field, append_int32_field,
  append_uint32_field, append_uint64_field, append_bool_field, append_double_field,
  string_map_entry_proto, append_string_map_entries, metric_resource_proto,
  metric_ingest_identity_proto, metric_point_proto, append_points, metric_proto, append_metrics,
  with_defaults, metric_batch_proto,
}
use serviceradar_sdk_go.Metric.Wire.{
  WireField, varint, fixed64, encode_field, encode_fields, encode_fields-append, AreWires, parse,
  parse-encode_fields,
}
use serviceradar_sdk_go.Metric.Schema.{
  two_complement, is_zero, point_message, metric_message, bytes_field, int32_field, unsigned_field,
  bool_field, double_field, repeated, entries, entry_fields, resource_fields, identity_fields,
  point_fields, metric_fields, batch_fields,
}

string_lem :
    (out : Bytes) (n : ℕ) (v : Bytes)
    → append_string_field out n v ≡ out ++ encode_fields (bytes_field n v)
unfolding append_string_field encode_fields encode_field bytes_field
string_lem out n [] = rw append-nil
string_lem out n (c ∷ v) = simp (append_assoc, append-nil)

message_lem :
    (out : Bytes) (n : ℕ) (v : Bytes)
    → append_message_field out n v ≡ out ++ encode_fields (bytes_field n v)
unfolding append_message_field encode_fields encode_field bytes_field
message_lem out n [] = rw append-nil
message_lem out n (c ∷ v) = simp (append_assoc, append-nil)

-- The shape of every scalar field: nothing, or a tag and a value.
scalar_lem :
    (absent : Bool) (out : Bytes) (f : WireField)
    → (if absent then out else out ++ encode_field f)
      ≡ out ++ encode_fields (if absent then [] else f ∷ [])
unfolding encode_fields
scalar_lem true out f = rw append-nil
scalar_lem false out f = rw append-nil

sign_extended_lem : (v : ℤ) → sign_extended v ≡ two_complement v
sign_extended_lem (pos n) = refl
sign_extended_lem (negsuc n) = omega arith

int32_lem :
    (out : Bytes) (n : ℕ) (v : ℤ)
    → append_int32_field out n v ≡ out ++ encode_fields (int32_field n v)
unfolding append_int32_field int32_field encode_field
int32_lem out n v =
    rw (sign_extended_lem v, append_assoc)
      (scalar_lem (eqℤ v (pos 0)) out (record { number = n; wire = varint (two_complement v) }))

uint32_lem :
    (out : Bytes) (n v : ℕ)
    → append_uint32_field out n v ≡ out ++ encode_fields (unsigned_field n v)
unfolding append_uint32_field unsigned_field encode_field
uint32_lem out n v =
    rw append_assoc (scalar_lem (v == 0) out (record { number = n; wire = varint v }))

uint64_lem :
    (out : Bytes) (n v : ℕ)
    → append_uint64_field out n v ≡ out ++ encode_fields (unsigned_field n v)
unfolding append_uint64_field unsigned_field encode_field
uint64_lem out n v =
    rw append_assoc (scalar_lem (v == 0) out (record { number = n; wire = varint v }))

uvarint_one : uvarint 1 ≡ 1 ∷ []
unfolding uvarint dec_lt
uvarint_one = refl

bool_lem :
    (out : Bytes) (n : ℕ) (v : Bool)
    → append_bool_field out n v ≡ out ++ encode_fields (bool_field n v)
unfolding append_bool_field bool_field encode_field
bool_lem out n v =
    rw append_assoc
      (rw (← uvarint_one) (scalar_lem (not v) out (record { number = n; wire = varint 1 })))

double_lem :
    (out : Bytes) (n v : ℕ) → append_double_field out n v ≡ out ++ encode_fields (double_field n v)
unfolding append_double_field double_field encode_field
double_lem out n v =
    rw append_assoc (scalar_lem (is_zero v) out (record { number = n; wire = fixed64 v }))

entry_lem : (e : MetricStringMapEntry) → string_map_entry_proto e ≡ encode_fields (entry_fields e)
unfolding string_map_entry_proto entry_fields
entry_lem e = simp (string_lem, encode_fields-append)

entries_lem :
    (out : Bytes) (n : ℕ) (es : List MetricStringMapEntry)
    → append_string_map_entries out n es ≡ out ++ encode_fields (entries n es)
unfolding append_string_map_entries repeated
entries_lem out n [] = unfold encode_fields in rw append-nil
entries_lem out n (e ∷ es) =
    entries_lem (append_message_field out n (string_map_entry_proto e)) n es
    ∙ simp (message_lem, entry_lem, encode_fields-append, append_assoc)

ruleset field_laws = (
  string_lem, message_lem, int32_lem, uint32_lem, uint64_lem, bool_lem, double_lem, entries_lem,
  encode_fields-append, append_assoc,
)

resource_lem : (r : MetricResource) → metric_resource_proto r ≡ encode_fields (resource_fields r)
unfolding metric_resource_proto resource_fields
resource_lem r = simp field_laws

identity_lem :
    (i : MetricIngestIdentity) → metric_ingest_identity_proto i ≡ encode_fields (identity_fields i)
unfolding metric_ingest_identity_proto identity_fields
identity_lem i = simp field_laws

point_lem : (p : MetricPoint) → metric_point_proto p ≡ encode_fields (point_fields p)
unfolding metric_point_proto point_fields
point_lem p = simp field_laws

points_lem :
    (out : Bytes) (ps : List MetricPoint)
    → append_points out ps ≡ out ++ encode_fields (repeated 20 point_message ps)
unfolding append_points repeated
points_lem out [] = unfold encode_fields in rw append-nil
points_lem out (p ∷ ps) =
    points_lem (append_message_field out 20 (metric_point_proto p)) ps
    ∙ simp (message_lem, point_lem, encode_fields-append, append_assoc)

metric_lem : (m : Metric) → metric_proto m ≡ encode_fields (metric_fields m)
unfolding metric_proto metric_fields
metric_lem m = simp (field_laws, points_lem)

metrics_lem :
    (out : Bytes) (ms : List Metric)
    → append_metrics out ms ≡ out ++ encode_fields (repeated 20 metric_message ms)
unfolding append_metrics repeated
metrics_lem out [] = unfold encode_fields in rw append-nil
metrics_lem out (m ∷ ms) =
    metrics_lem (append_message_field out 20 (metric_proto m)) ms
    ∙ simp (message_lem, metric_lem, encode_fields-append, append_assoc)

batch_lem : (b : MetricBatch) → metric_batch_proto b ≡ encode_fields (batch_fields b)
unfolding metric_batch_proto with_defaults batch_fields
batch_lem b = simp (field_laws, resource_lem, identity_lem, metrics_lem)

AreWires-append : (xs ys : List WireField) → AreWires xs → AreWires ys → AreWires (xs ++ ys)
AreWires-append [] ys hx hy = hy
AreWires-append (x ∷ xs) ys hx hy = (hx.0, AreWires-append xs ys hx.1 hy)

AreWires-bytes : (n : ℕ) (v : Bytes) → AreWires (bytes_field n v)
unfolding bytes_field
AreWires-bytes n [] = tt
AreWires-bytes n (c ∷ v) = (tt, tt)

-- The field of a scalar that may be left out.
AreWires-if :
    (absent : Bool) (f : WireField) → AreWires (f ∷ []) → AreWires (if absent then [] else f ∷ [])
AreWires-if true f h = tt
AreWires-if false f h = h

AreWires-int32 : (n : ℕ) (v : ℤ) → AreWires (int32_field n v)
unfolding int32_field
AreWires-int32 n v =
    AreWires-if (eqℤ v (pos 0)) (record { number = n; wire = varint (two_complement v) }) (tt, tt)

AreWires-unsigned : (n v : ℕ) → AreWires (unsigned_field n v)
unfolding unsigned_field
AreWires-unsigned n v = AreWires-if (v == 0) (record { number = n; wire = varint v }) (tt, tt)

AreWires-bool : (n : ℕ) (v : Bool) → AreWires (bool_field n v)
unfolding bool_field
AreWires-bool n v = AreWires-if (not v) (record { number = n; wire = varint 1 }) (tt, tt)

AreWires-double : (n v : ℕ) → v < 2 ^ 64 → AreWires (double_field n v)
unfolding double_field
AreWires-double n v h = AreWires-if (is_zero v) (record { number = n; wire = fixed64 v }) (h, tt)

AreWires-repeated :
    {A : Type 0} (n : ℕ) (message : A → Bytes) (xs : List A) → AreWires (repeated n message xs)
unfolding repeated
AreWires-repeated n message [] = tt
AreWires-repeated n message (x ∷ xs) =
    AreWires-append (bytes_field n (message x)) (repeated n message xs)
      (AreWires-bytes n (message x)) (AreWires-repeated n message xs)

ruleset wires = (
  AreWires-append, AreWires-bytes, AreWires-int32, AreWires-unsigned, AreWires-bool,
  AreWires-double, AreWires-repeated,
)

-- A protobuf parser finds in an encoded metric, whose scale has 64 bits, exactly the fields of the
-- schema: every value under its number and wire type, an int32 with its sign extended to 64 bits, the
-- repeated messages in order, each with the fields of its own schema, and no field for a default
-- value or a message without a byte.
pub parse-metric_proto :
    (m : Metric) → m.scale < 2 ^ 64 → parse (metric_proto m) ≡ some (metric_fields m)
unfolding metric_fields
parse-metric_proto m h =
    rw (metric_lem m) (parse-encode_fields (metric_fields m) (search wires depth 30))

-- A protobuf parser finds in an encoded data point, whose value has 64 bits, exactly the fields of
-- its schema: an int32 has its sign extended to 64 bits, and a member with the default value, of which
-- a double has 0 and -0, or a message without a byte, has none.
pub parse-metric_point_proto :
    (p : MetricPoint) → p.value < 2 ^ 64 → parse (metric_point_proto p) ≡ some (point_fields p)
unfolding point_fields
parse-metric_point_proto p h =
    rw (point_lem p) (parse-encode_fields (point_fields p) (search wires depth 30))

-- A protobuf parser finds in an encoded resource, an encoded ingest identity and an encoded entry of a
-- string map exactly the fields of their schemas.
parse-metric_parts :
    (r : MetricResource) (i : MetricIngestIdentity) (e : MetricStringMapEntry)
    → (parse (metric_resource_proto r) ≡ some (resource_fields r))
      × (parse (metric_ingest_identity_proto i) ≡ some (identity_fields i))
      × (parse (string_map_entry_proto e) ≡ some (entry_fields e))
unfolding resource_fields identity_fields entry_fields
parse-metric_parts r i e = (
  rw (resource_lem r) (parse-encode_fields (resource_fields r) (search wires depth 30)),
  rw (identity_lem i) (parse-encode_fields (identity_fields i) (search wires depth 30)),
  rw (entry_lem e) (parse-encode_fields (entry_fields e) (search wires depth 30)),
)

-- A protobuf parser finds in an encoded batch exactly the fields of its schema: the resource, the
-- ingest identity and the metrics, in their order, are messages of the fields of their own schemas,
-- an empty schema version or payload kind is serviceradar.metric.v1, and a member with the default
-- value or a message without a byte, such as that of an empty metric, has no field.
pub parse-metric_batch_proto :
    (b : MetricBatch) → parse (metric_batch_proto b) ≡ some (batch_fields b)
unfolding batch_fields
parse-metric_batch_proto b =
    rw (batch_lem b) (parse-encode_fields (batch_fields b) (search wires depth 30))
