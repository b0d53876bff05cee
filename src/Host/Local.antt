-- ===== src/Host/Local.antt =====
-- sdk/local_host.go and sdk/host_calls_native.go: the native development host, apart from its HTTP,
-- gRPC and artifact calls. The mutexes serialise the calls, so each call is one function on the
-- state; without a host installed the state is `none`.
pub mod Config
use serviceradar_sdk_go.Base.{
  ℕ, ◌+◌, Bool, true, false, ◌||◌, List, [], ◌∷◌, ◌++◌, Option, none, some, if◌then◌else◌, ltb,
  null, length, take, Result, ok, err,
}
use serviceradar_sdk_go.Strings.{Bytes, ℤ, pos}
use serviceradar_sdk_go.Host.{
  host_err_ok, host_err_invalid, host_err_too_large, host_err_not_found, max_payload_bytes,
}

pub record LocalHostLog : Type 0 where
  pub level : ℕ
  pub message : Bytes

pub record LocalHost : Type 0 where
  pub config_json : Bytes
  pub result_json : Bytes
  pub telemetry_json : List Bytes
  pub logs : List LocalHostLog

-- The outputs of a run that RunLocalHost gives back.
pub record LocalHostCapture : Type 0 where
  pub result_json : Bytes
  pub telemetry_json : List Bytes
  pub logs : List LocalHostLog

unfoldable pub local_get_config : Option LocalHost → ℕ → ℤ × Bytes
local_get_config none size = (host_err_not_found, [])
local_get_config (some h) size =
    if ltb size (length h.config_json)
    then (host_err_too_large, [])
    else (pos (length h.config_json), h.config_json)

unfoldable pub local_log : Option LocalHost → ℕ → Bytes → Option LocalHost
local_log none level bytes = none
local_log (some h) level bytes =
    if null bytes
    then some h
    else some (record h { logs = h.logs ++ (record { level = level; message = bytes } ∷ []) })

unfoldable pub local_submit_result : Option LocalHost → Bytes → ℤ × Option LocalHost
local_submit_result none payload = (host_err_not_found, none)
local_submit_result (some h) payload =
    if null payload
    then (host_err_invalid, some h)
    else if ltb max_payload_bytes (length payload)
    then (host_err_too_large, some h)
    else (host_err_ok, some (record h { result_json = payload }))

unfoldable pub local_emit_telemetry : Option LocalHost → Bytes → ℤ × Option LocalHost
local_emit_telemetry none payload = (host_err_not_found, none)
local_emit_telemetry (some h) payload =
    if null payload
    then (host_err_invalid, some h)
    else if ltb max_payload_bytes (length payload)
    then (host_err_too_large, some h)
    else (host_err_ok, some (record h { telemetry_json = h.telemetry_json ++ (payload ∷ []) }))

abbrev pub capture : LocalHost → LocalHostCapture
capture h = record { result_json = h.result_json; telemetry_json = h.telemetry_json; logs = h.logs }

pub data RunError : Type 0 where
  run_required config_too_large : RunError

abbrev installed : Bytes → LocalHost
installed config = record { config_json = config; result_json = []; telemetry_json = []; logs = [] }

abbrev captured : Option LocalHost → LocalHostCapture
captured none = record { result_json = []; telemetry_json = []; logs = [] }
captured (some h) = capture h

-- RunLocalHost: the run is a function on the host that stands installed, and returns its error.
-- What it gives back is the capture, the error of the run, and the host that is installed
-- afterwards, which is the previous one.
unfoldable pub run_local_host :
    {E : Type 0}
    → Bytes
    → Option (Option LocalHost → Option E × Option LocalHost)
    → Option LocalHost
    → Result RunError (LocalHostCapture × Option E) × Option LocalHost
run_local_host config none previous = (err run_required, previous)
run_local_host config (some run) previous =
    if ltb max_payload_bytes (length config)
    then (err config_too_large, previous)
    else (let (e, after) = run (some (installed config)) in ok (captured after, e), previous)
