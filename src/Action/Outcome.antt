-- ===== src/Action/Outcome.antt =====
-- sdk/action.go: the result of an action, its builders and its submission.
use serviceradar_sdk_go.Base.{
  ◌<◌, ◌≤◌, [], ◌∷◌, ◌++◌, ◌≡◌, refl, Option, none, some, if◌then◌else◌, null, length,
}
use serviceradar_sdk_go.Strings.{Bytes, str, ℤ, pos}
use serviceradar_sdk_go.Maps.{Dict, insert}
use serviceradar_sdk_go.Values.{Value, text}
use serviceradar_sdk_go.Host.{HostResult, fine, failed, max_payload_bytes}
use serviceradar_sdk_go.Host.Local.{LocalHost}
use serviceradar_sdk_go.Result.Execute.{local_host, submit_result, local_submit_fits}
use serviceradar_sdk_go.Action.{ActionResult, ActionTargetResult, result_schema}

abbrev pub new_action_result : Bytes → ActionResult
new_action_result status = record {
  schema_version = result_schema;
  status = status;
  summary = [];
  external_correlation_id = [];
  continuation_state = [];
  poll_mode = [];
  next_poll_at = [];
  next_poll_delay_seconds = pos 0;
  poll_deadline_at = [];
  max_duration_seconds = pos 0;
  targets = [];
  error_class = [];
  error_message = [];
  metadata = [];
  run_overrides = [];
}

unfoldable pub with_summary : Bytes → Value → ActionResult → ActionResult
with_summary key value r = if null key then r else record r { summary = insert key value r.summary }

abbrev pub with_error : Bytes → Bytes → ActionResult → ActionResult
with_error class message r = record r { error_class = class; error_message = message }

-- ActionSucceeded, ActionDeferred, ActionPolling and ActionResultFetching, with their statuses
abbrev pub action_with_message : Bytes → Bytes → ActionResult
action_with_message status message =
    with_summary (str "message") (text message) (new_action_result status)

abbrev pub action_failed : Bytes → Bytes → ActionResult
action_failed class message = with_error class message (new_action_result (str "failed"))

abbrev pub with_correlation_id : Bytes → ActionResult → ActionResult
with_correlation_id id r = record r { external_correlation_id = id }

abbrev pub with_continuation_state : Dict Value → ActionResult → ActionResult
with_continuation_state state r = record r { continuation_state = state }

abbrev pub with_poll_mode : Bytes → ActionResult → ActionResult
with_poll_mode mode r = record r { poll_mode = mode }

abbrev pub with_webhook_callback : ActionResult → ActionResult
with_webhook_callback r = with_poll_mode (str "webhook") r

abbrev pub with_next_poll_delay : ℤ → ActionResult → ActionResult
with_next_poll_delay seconds r = record r { next_poll_delay_seconds = seconds }

abbrev pub with_next_poll_at : Bytes → ActionResult → ActionResult
with_next_poll_at timestamp r = record r { next_poll_at = timestamp }

abbrev pub with_poll_deadline_at : Bytes → ActionResult → ActionResult
with_poll_deadline_at timestamp r = record r { poll_deadline_at = timestamp }

abbrev pub with_max_duration : ℤ → ActionResult → ActionResult
with_max_duration seconds r = record r { max_duration_seconds = seconds }

-- AddTargetResult and WithTargetResult
abbrev pub add_target_result : ActionTargetResult → ActionResult → ActionResult
add_target_result result r = record r { targets = r.targets ++ (result ∷ []) }

-- What Serialize fills in.
unfoldable pub with_action_defaults : ActionResult → ActionResult
with_action_defaults r = record r {
  schema_version = if null r.schema_version then result_schema else r.schema_version;
  status = if null r.status then str "succeeded" else r.status;
}

abbrev pub completed : Option ActionResult → ActionResult
completed none = action_with_message (str "succeeded") (str "completed")
completed (some r) = r

pub data SubmitError : Type 0 where
  not_serialized : SubmitError
  not_submitted : HostResult → SubmitError

module _ (marshal : ActionResult → Option Bytes) where
  abbrev submitted : HostResult × Option LocalHost → Option SubmitError × Option LocalHost
  submitted (fine, host) = (none, host)
  submitted (failed e, host) = (some (not_submitted (failed e)), host)

  -- SubmitActionResult on the local host
  unfoldable pub submit_action_result :
      Option ActionResult → Option LocalHost → Option SubmitError × Option LocalHost
  unfolding with_action_defaults submit_result
  submit_action_result result host = elim (marshal (with_action_defaults (completed result))) [
    | none ↦ (some not_serialized, host)
    | some payload ↦ submitted (submit_result local_host payload host)
  ]

  -- A result whose encoding, defaults included, is neither empty nor too long replaces the result of
  -- the local host; a nil result counts as a completed one.
  pub submit_action_result_local :
      (result : Option ActionResult) (h : LocalHost) (payload : Bytes)
      → marshal (with_action_defaults (completed result)) ≡ some payload
      → 0 < length payload
      → length payload ≤ max_payload_bytes
      → submit_action_result result (some h) ≡ (none, some (record h { result_json = payload }))
  unfolding submit_action_result
  submit_action_result_local result h payload e given fits =
      rw (submit_action_result, e, local_submit_fits h payload given fits) refl
