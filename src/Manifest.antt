-- ===== src/Manifest.antt =====
-- sdk/manifest.go: the plugin manifest and its validation. Serialize is the validation followed by
-- encoding/json and is left out. Go's loops over runes stop at a byte outside ASCII in every test
-- here, as the loops over bytes do.
pub mod Rules
pub mod Semver
use serviceradar_sdk_go.Base.{
  ℕ, zero, suc, ◌+◌, Bool, true, false, not, ◌&&◌, ◌||◌, List, [], ◌∷◌, ◌++◌, Option, none, some,
  ◌==◌, if◌then◌else◌, null, length, ltb, leb, all, map,
}
use serviceradar_sdk_go.Strings.{
  Bytes, str, ℤ, pos, is_neg, is_digit, itoa, equal, has_prefix, has_suffix, contains, split, blank,
  any_of, join,
}
use serviceradar_sdk_go.Maps.{Dict}
use serviceradar_sdk_go.Values.{Value}

pub record SignalSchemaContribution : Type 0 where
  pub id : Bytes
  pub version : Bytes
  pub signal_type : Bytes
  pub payload_kind : Bytes
  pub payload_schema : Bytes
  pub display_contract : Bytes
  pub display_contract_id : Bytes
  pub display_contract_version : Bytes
  pub ocsf_schema_version : Bytes
  pub class_uid : ℤ
  pub type_uid : ℤ

pub record PluginManifest : Type 0 where
  pub id : Bytes
  pub name : Bytes
  pub version : Bytes
  pub description : Bytes
  pub entrypoint : Bytes
  pub runtime : Bytes
  pub capabilities : List Bytes
  pub permissions : Dict Value
  pub resources : Dict Value
  pub outputs : Bytes
  pub signal_schemas : List SignalSchemaContribution

abbrev pub allowed_runtimes : List Bytes
allowed_runtimes = str "none" ∷ str "wasi-preview1" ∷ []

abbrev pub allowed_outputs : List Bytes
allowed_outputs =
    str "serviceradar.plugin_result.v1"
    ∷ str "serviceradar.camera_stream.v1"
    ∷ str "serviceradar.proxmox_console.v1"
    ∷ []

abbrev pub allowed_capabilities : List Bytes
allowed_capabilities =
    str "get_config"
    ∷ str "log"
    ∷ str "submit_result"
    ∷ str "emit_telemetry"
    ∷ str "http_request"
    ∷ str "grpc_request"
    ∷ str "websocket_connect"
    ∷ str "websocket_send"
    ∷ str "websocket_recv"
    ∷ str "websocket_close"
    ∷ str "camera_media_stream"
    ∷ str "proxmox_console_stream"
    ∷ str "tcp_connect"
    ∷ str "tcp_read"
    ∷ str "tcp_write"
    ∷ str "tcp_close"
    ∷ str "udp_sendto"
    ∷ str "artifact-staging:v1"
    ∷ str "advisory-feed:v1"
    ∷ str "producer-schedule:v1"
    ∷ str "action-result-ingest:v1"
    ∷ str "action-only:v1"
    ∷ []

abbrev pub max_signal_ref_length : ℕ
max_signal_ref_length = 160

abbrev pub max_signal_path_length : ℕ
max_signal_path_length = 240

unfoldable pub is_allowed_value : List Bytes → Bytes → Bool
is_allowed_value [] value = false
is_allowed_value (candidate ∷ values) value =
    let later = is_allowed_value values value in if equal candidate value then true else later

unfoldable last_part : Bytes → List Bytes → Bytes
last_part p [] = p
last_part p (q ∷ ps) = last_part q ps

unfoldable pub short_schema_name : Bytes → Bytes
unfolding last_part
short_schema_name id = last_part [] (split id (str "."))

unfoldable pub new_signal_schema_contribution :
    Bytes → Bytes → Bytes → Bytes → SignalSchemaContribution
new_signal_schema_contribution id version signal_type payload_kind = record {
  id = id;
  version = version;
  signal_type = signal_type;
  payload_kind = payload_kind;
  payload_schema = str "schemas/" ++ (short_schema_name id ++ str ".schema.json");
  display_contract = str "display/" ++ (short_schema_name id ++ str ".display.json");
  display_contract_id = id ++ str ".display";
  display_contract_version = version;
  ocsf_schema_version = [];
  class_uid = pos 0;
  type_uid = pos 0;
}

unfoldable pub with_ocsf : SignalSchemaContribution → Bytes → ℤ → ℤ → SignalSchemaContribution
with_ocsf s schema_version class_uid type_uid = record s {
  ocsf_schema_version = schema_version;
  class_uid = class_uid;
  type_uid = type_uid;
}

abbrev pub is_ascii_alphanumeric : ℕ → Bool
is_ascii_alphanumeric c = (leb b'a' c && leb c b'z') || (leb b'A' c && leb c b'Z') || is_digit c

-- The test of a byte by whether it is the first.
abbrev pub ref_byte : Bool → ℕ → Bool
ref_byte first c =
    (leb b'a' c && leb c b'z') || is_digit c || ((c == b'_' || c == b'.' || c == b'-') && not first)

unfoldable pub is_signal_ref : Bytes → Bool
is_signal_ref [] = false
is_signal_ref (c ∷ value) = ref_byte true c && all (ref_byte false) value

abbrev pub suffix_byte : ℕ → Bool
suffix_byte c = is_ascii_alphanumeric c || c == b'.' || c == b'-'

-- strings.IndexAny(value, "-+"): what stands before it, and what stands behind it where there is one
unfoldable pub cut_any : Bytes → Bytes × Option Bytes
cut_any [] = ([], none)
cut_any (c ∷ value) =
    let later = cut_any value in
    if c == b'-' || c == b'+' then ([], some value) else (c ∷ later.0, later.1)

abbrev pub good_suffix : Option Bytes → Bool
good_suffix none = true
good_suffix (some suffix) = not (null suffix) && all suffix_byte suffix

abbrev pub number : Bytes → Bool
number part = not (null part) && all is_digit part

unfoldable pub is_semver : Bytes → Bool
is_semver value =
    let core = cut_any value in
    let parts = split core.0 (str ".") in
    good_suffix core.1 && length parts == 3 && all number parts

abbrev pub path_byte : Bool → ℕ → Bool
path_byte first c = is_ascii_alphanumeric c || c == b'_' || c == b'-' || (c == b'.' && not first)

unfoldable pub path_segment : Bytes → Bool
path_segment [] = false
path_segment (c ∷ segment) = path_byte true c && all (path_byte false) segment

unfoldable pub is_relative_bundle_path : Bytes → Bool
is_relative_bundle_path value =
    not (has_prefix value (str "/") || has_suffix value (str "/"))
    && all path_segment (split value (str "/"))

abbrev pub complaint : Bytes → Bytes → List Bytes
complaint path text = (path ++ text) ∷ []

unfoldable pub validate_signal_ref : Bytes → Bytes → List Bytes
validate_signal_ref value path =
    if blank value
    then complaint path (str " must be a non-empty string")
    else if ltb max_signal_ref_length (length value)
    then complaint path (str " exceeds maximum length")
    else if not (is_signal_ref value)
    then complaint path (str " must use lowercase letters, numbers, dots, underscores, or hyphens")
    else []

unfoldable pub validate_semver : Bytes → Bytes → List Bytes
validate_semver value path =
    if is_semver value then [] else complaint path (str " must be a valid semver string")

unfoldable pub validate_bundle_path : Bytes → Bytes → List Bytes
validate_bundle_path value path =
    if blank value
    then complaint path (str " must be a non-empty string")
    else if ltb max_signal_path_length (length value)
    then complaint path (str " exceeds maximum length")
    else if contains value (str "..")
    then complaint path (str " must not traverse directories")
    else if not (has_suffix value (str ".json"))
    then complaint path (str " must reference a JSON file")
    else if not (is_relative_bundle_path value)
    then complaint path (str " must be a relative bundle path")
    else []

abbrev pub when : Bool → Bytes → List Bytes
when b text = if b then text ∷ [] else []

unfoldable pub validate_schema : SignalSchemaContribution → Bytes → List Bytes
validate_schema s path =
    validate_signal_ref s.id (path ++ str ".id")
    ++ (validate_signal_ref s.display_contract_id (path ++ str ".display_contract_id")
        ++ (validate_semver s.version (path ++ str ".version")
            ++ (validate_semver s.display_contract_version (path ++ str ".display_contract_version")
                ++ ((if null s.ocsf_schema_version
                      then []
                      else validate_semver s.ocsf_schema_version
                          (path ++ str ".ocsf_schema_version"))
                    ++ (when
                          (not (equal s.signal_type (str "event"))
                            && not (equal s.signal_type (str "log")))
                          (path ++ str ".signal_type must be one of: event, log")
                        ++ (when
                              (not (equal s.payload_kind (str "ocsf_event"))
                                && not (equal s.payload_kind (str "otel_log")))
                              (path ++ str ".payload_kind must be one of: ocsf_event, otel_log")
                            ++ (validate_bundle_path s.payload_schema
                                  (path ++ str ".payload_schema")
                                ++ (validate_bundle_path s.display_contract
                                      (path ++ str ".display_contract")
                                    ++ (when (is_neg s.class_uid)
                                          (path ++ str ".class_uid must be a positive integer")
                                        ++ when (is_neg s.type_uid) (
                                            path
                                            ++ str ".type_uid must be a positive integer"))))))))))

unfoldable pub capability_errors : List Bytes → List Bytes
capability_errors [] = []
capability_errors (capability ∷ rest) =
    when (not (is_allowed_value allowed_capabilities capability))
      (str "capabilities contains unsupported capability " ++ capability)
    ++ capability_errors rest

unfoldable pub schema_errors : ℕ → List SignalSchemaContribution → List Bytes
schema_errors i [] = []
schema_errors i (schema ∷ rest) =
    validate_schema schema (str "signal_schemas[" ++ (itoa i ++ str "]"))
    ++ schema_errors (i + 1) rest

-- The errors that Validate collects; it returns nil if there is none.
unfoldable pub manifest_errors : PluginManifest → List Bytes
manifest_errors m =
    when (blank m.id) (str "id must be set")
    ++ (when (blank m.name) (str "name must be set")
        ++ (when (blank m.version) (str "version must be set")
            ++ (when (blank m.entrypoint) (str "entrypoint must be set")
                ++ (when (not (null m.runtime) && not (is_allowed_value allowed_runtimes m.runtime))
                      (str "runtime must be one of: " ++ join allowed_runtimes (str ", "))
                    ++ (when (not (is_allowed_value allowed_outputs m.outputs))
                          (str "outputs must be one of: " ++ join allowed_outputs (str ", "))
                        ++ (when (null m.capabilities) (str "capabilities must be set")
                            ++ (capability_errors m.capabilities
                                ++ (when (null m.resources) (str "resources must be set")
                                    ++ schema_errors 0 m.signal_schemas))))))))

unfoldable pub validate : PluginManifest → Option Bytes
validate m =
    let errs = manifest_errors m in
    if ltb 0 (length errs)
    then some (str "invalid plugin manifest: " ++ join errs (str "; "))
    else none
