-- ===== src/Action.antt =====
-- sdk/action.go: northbound actions. Maps of any are lists of values; encoding/json is a parameter.
-- A nil map and an empty one are the empty list, and a nil pointer is `none`.
mod Types
pub mod Outcome
pub mod Overrides
pub use Types.*
use serviceradar_sdk_go.Base.{
  ℕ, Bool, true, false, List, [], ◌∷◌, Option, none, some, if◌then◌else◌, null, Result, ok, err,
}
use serviceradar_sdk_go.Strings.{Bytes, str, ℤ, pos, equal, trim_space, to_lower}
use serviceradar_sdk_go.Maps.{Dict, lookup, remove}
use serviceradar_sdk_go.Values.{Value}
use serviceradar_sdk_go.Host.{HostError, GetConfig, get_config_bytes}

abbrev pub result_schema : Bytes
result_schema = str "serviceradar.northbound_action_result.v1"

abbrev pub new_action_descriptor : Bytes → Bytes → List Bytes → ActionDescriptor
new_action_descriptor action_id label scopes = record {
  action_id = action_id;
  version = str "1.0.0";
  label = label;
  description = [];
  scopes = scopes;
  required_context = [];
  input_schema = [];
  timeout_seconds = pos 60;
  max_override_duration_seconds = pos 0;
  safety_classification = str "standard";
  requires_confirmation = false;
  credential_requirements = [];
  result_schema_version = result_schema;
}

-- WithMaxOverrideDuration of sdk/run_override.go
abbrev pub with_max_override_duration : ℤ → ActionDescriptor → ActionDescriptor
with_max_override_duration seconds d = record d { max_override_duration_seconds = seconds }

-- normalizeInterfaceStatus
unfoldable pub normalize_interface_status : Bytes → Bytes
normalize_interface_status value =
    let trimmed = trim_space value in
    if equal (to_lower trimmed) (str "1")
    then str "up"
    else if equal (to_lower trimmed) (str "2")
    then str "down"
    else if equal (to_lower trimmed) (str "3")
    then str "testing"
    else trimmed

-- What json decodes a status to; a number is its text, and any other value is an error.
pub data StatusValue : Type 0 where
  absent other : StatusValue
  given : Bytes → StatusValue

-- decodeInterfaceStatus behind its decoder, whose error is `none`
unfoldable pub decode_interface_status : Option StatusValue → Option Bytes
decode_interface_status none = none
decode_interface_status (some absent) = some []
decode_interface_status (some other) = none
decode_interface_status (some (given value)) = some (normalize_interface_status value)

-- The two statuses of a snapshot, each with its raw text: `decode` reads one of them.
abbrev status_of : (Bytes → Option StatusValue) → Bytes → Bytes → Option Bytes
status_of decode raw before = if null raw then some before else decode_interface_status (decode raw)

abbrev with_statuses :
    ActionTargetSnapshot → Option Bytes → Option Bytes → Option ActionTargetSnapshot
with_statuses t none oper = none
with_statuses t (some admin) none = none
with_statuses t (some admin) (some oper) =
    some (record t { if_admin_status = admin; if_oper_status = oper })

-- UnmarshalJSON: the snapshot without its statuses and the two raw statuses are what json gives.
unfoldable pub unmarshal_target :
    (Bytes → Option StatusValue)
    → Option (ActionTargetSnapshot × Bytes × Bytes)
    → Option ActionTargetSnapshot
unmarshal_target decode none = none
unmarshal_target decode (some (t, admin, oper)) =
    with_statuses t (status_of decode admin t.if_admin_status)
      (status_of decode oper t.if_oper_status)

abbrev pub address : ActionTargetSnapshot → Bytes
address t = if null t.ip then t.device_ip else t.ip

pub data ActionError : Type 0 where
  host : HostError → ActionError
  empty_config bad_config invocation_required bad_invocation : ActionError

-- What json does with a config: its object, the text of one value, and an invocation.
pub record ActionCodec : Type 0 where
  pub decode_object : Bytes → Option (Dict Value)
  pub encode_value : Value → Option Bytes
  pub decode_invocation : Bytes → Option ActionInvocation

module _ (codec : ActionCodec) where
  abbrev decoded_invocation : Option Bytes → Option ActionInvocation
  decoded_invocation none = none
  decoded_invocation (some text) = codec.decode_invocation text

  abbrev config_of : Dict Value → Option ActionInvocation → Result ActionError ActionHostConfig
  config_of raw none = err bad_invocation
  config_of raw (some invocation) = ok (record {
    action_invocation = invocation;
    plugin_config = remove (str "action_invocation") raw;
  })

  abbrev config_from : Option (Dict Value) → Result ActionError ActionHostConfig
  config_from none = err bad_config
  config_from (some raw) = elim (lookup (str "action_invocation") raw) [
    | none ↦ err invocation_required
    | some value ↦ config_of raw (decoded_invocation (codec.encode_value value))
  ]

  unfoldable pub parse_action_config : Bytes → Result ActionError ActionHostConfig
  parse_action_config data' =
      if null data' then err empty_config else config_from (codec.decode_object data')

  unfoldable pub load_action_config : GetConfig → Result ActionError ActionHostConfig
  load_action_config call = elim (get_config_bytes call) [
    | err e ↦ err (host e)
    | ok text ↦ parse_action_config text
  ]
