-- ===== src/Action/Types.antt =====
-- The types of sdk/action.go and sdk/run_override.go. A time is a number of nanoseconds; statuses,
-- modes, scopes and safety classes are strings.
use serviceradar_sdk_go.Base.{ℕ, Bool, List, Option}
use serviceradar_sdk_go.Strings.{Bytes, ℤ}
use serviceradar_sdk_go.Maps.{Dict}
use serviceradar_sdk_go.Values.{Value}

pub record ActionCallback : Type 0 where
  pub job_id : Bytes
  pub path : Bytes
  pub url : Bytes
  pub token : Bytes
  pub token_header : Bytes

pub record ActionDescriptor : Type 0 where
  pub action_id : Bytes
  pub version : Bytes
  pub label : Bytes
  pub description : Bytes
  pub scopes : List Bytes
  pub required_context : List Bytes
  pub input_schema : Dict Value
  pub timeout_seconds : ℤ
  pub max_override_duration_seconds : ℤ
  pub safety_classification : Bytes
  pub requires_confirmation : Bool
  pub credential_requirements : Dict Value
  pub result_schema_version : Bytes

pub record ActionTargetSnapshot : Type 0 where
  pub kind : Bytes
  pub northbound_job_id : Bytes
  pub callback : ActionCallback
  pub device_uid : Bytes
  pub device_name : Bytes
  pub name : Bytes
  pub hostname : Bytes
  pub device_hostname : Bytes
  pub ip : Bytes
  pub device_ip : Bytes
  pub mac : Bytes
  pub vendor_name : Bytes
  pub model : Bytes
  pub type : Bytes
  pub is_available : Option Bool
  pub agent_id : Bytes
  pub gateway_id : Bytes
  pub device_agent_id : Bytes
  pub device_gateway_id : Bytes
  pub discovery_sources : List Bytes
  pub interface_uid : Bytes
  pub if_index : Option ℤ
  pub if_name : Bytes
  pub if_descr : Bytes
  pub if_alias : Bytes
  pub if_phys_address : Bytes
  pub ip_addresses : List Bytes
  pub if_admin_status : Bytes
  pub if_oper_status : Bytes
  pub if_type_name : Bytes
  pub interface_kind : Bytes
  pub classifications : List Bytes
  pub event_id : Bytes
  pub attributes : Dict Value

pub record ActionInvocation : Type 0 where
  pub schema_version : Bytes
  pub phase : Bytes
  pub invocation_id : Bytes
  pub invocation_target_id : Bytes
  pub provider_id : Bytes
  pub descriptor_id : Bytes
  pub action_id : Bytes
  pub action_version : Bytes
  pub descriptor_hash : Bytes
  pub result_schema_version : Bytes
  pub plugin_assignment_id : Bytes
  pub plugin_package_id : Bytes
  pub targets : List ActionTargetSnapshot
  pub input_values : Dict Value
  pub redacted_input_values : Dict Value
  pub continuation_state : Dict Value
  pub external_correlation_id : Bytes
  pub poll_attempt_count : ℤ
  pub requested_at : Bytes
  pub metadata : Dict Value

pub record ActionHostConfig : Type 0 where
  pub action_invocation : ActionInvocation
  pub plugin_config : Dict Value

pub record RunOverride : Type 0 where
  pub id : Bytes
  pub kind : Bytes
  pub target : Bytes
  pub params : Dict Value
  pub starts_at : ℕ
  pub expires_at : ℕ
  pub expired : Bool

pub record RunOverrideOperation : Type 0 where
  pub op : Bytes
  pub id : Bytes
  pub kind : Bytes
  pub target : Bytes
  pub params : Dict Value
  pub starts_at : Bytes
  pub expires_at : Bytes
  pub duration_seconds : ℤ

pub record ActionTargetResult : Type 0 where
  pub device_uid : Bytes
  pub interface_uid : Bytes
  pub status : Bytes
  pub result : Dict Value
  pub external_correlation_id : Bytes
  pub continuation_state : Dict Value
  pub poll_mode : Bytes
  pub next_poll_at : Bytes
  pub next_poll_delay_seconds : ℤ
  pub poll_deadline_at : Bytes
  pub max_duration_seconds : ℤ

pub record ActionResult : Type 0 where
  pub schema_version : Bytes
  pub status : Bytes
  pub summary : Dict Value
  pub external_correlation_id : Bytes
  pub continuation_state : Dict Value
  pub poll_mode : Bytes
  pub next_poll_at : Bytes
  pub next_poll_delay_seconds : ℤ
  pub poll_deadline_at : Bytes
  pub max_duration_seconds : ℤ
  pub targets : List ActionTargetResult
  pub error_class : Bytes
  pub error_message : Bytes
  pub metadata : Dict Value
  pub run_overrides : List RunOverrideOperation
