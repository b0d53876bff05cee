-- ===== src/Result/Execute.antt =====
-- sdk/execute.go: Execute and SubmitResult, on an interface of host calls. The plugin function has run already:
-- what is left of it is its result, the text of its error, and the host as it left it. `now` is the
-- text that SetObservedAt writes at the call of finalize, `later` that at the call of Serialize.
pub mod Reports
use serviceradar_sdk_go.Base.{
  ◌≤◌, ◌<◌, true, [], ◌∷◌, ◌++◌, Option, none, some, ◌≡◌, ◌≢◌, refl, arith, if◌then◌else◌, null,
  length, ltb, lt→ltb, ◌⊎◌, inl, inr, ℕ, List, false,
}
use serviceradar_sdk_go.Strings.{Bytes, str, ℤ}
use serviceradar_sdk_go.Host.{
  HostError, HostResult, fine, failed, host_err, host_err_invalid, max_payload_bytes,
}
use serviceradar_sdk_go.Host.Local.{LocalHost, local_log, local_submit_result}
use serviceradar_sdk_go.Result.{
  Result, new_result, critical, status_critical, apply_result_defaults, serialize,
}

-- The host calls of a run.
pub record ExecuteHost (H : Type 0) : Type 0 where
  pub host_log : ℕ → Bytes → H → H
  pub host_submit : Bytes → H → ℤ × H

abbrev pub local_host : ExecuteHost (Option LocalHost)
local_host = record {
  host_log = λ level message h. local_log h level message;
  host_submit = λ payload h. local_submit_result h payload;
}

unfoldable pub submit_result : {H : Type 0} → ExecuteHost H → Bytes → H → HostResult × H
submit_result calls payload host =
    if null payload
    then (failed (record { code = host_err_invalid; op = str "submit_result" }), host)
    else (let (code, after) = calls.host_submit payload host in
        (host_err code (str "submit_result"), after))

-- The result that is submitted, before its defaults.
unfoldable pub outcome : Option Result → Option Bytes → Result
outcome none none = new_result
outcome none (some e) = critical (str "plugin error: " ++ e)
outcome (some r) none = r
outcome (some r) (some e) = record r {
  status = status_critical;
  summary = if null r.summary then str "plugin error: " ++ e else r.summary;
  details = if null r.details then e else r.details;
}

pub data ExecuteError : Type 0 where
  serialize_failed : ExecuteError
  submit_failed : HostError → ExecuteError

module _ {H : Type 0} (calls : ExecuteHost H) where
  abbrev log_error : Bytes → H → H
  log_error message host = calls.host_log 3 message host

  abbrev logged_failure : Option Bytes → H → H
  logged_failure none host = host
  logged_failure (some e) host = log_error (str "plugin error") host

  after_submit : HostResult × H → Option ExecuteError × H
  after_submit (fine, host) = (none, host)
  after_submit (failed e, host) =
      (some (submit_failed e), log_error (str "failed to submit result") host)

  after_serialize : Option Bytes → H → Option ExecuteError × H
  unfolding after_submit submit_result
  after_serialize none host =
      (some serialize_failed, log_error (str "failed to serialize result") host)
  after_serialize (some payload) host = after_submit (submit_result calls payload host)

  module _ (marshal : Result → Option Bytes) (now later : Bytes) where
    unfoldable pub execute : Option Result → Option Bytes → H → Option ExecuteError × H
    unfolding after_serialize
    execute result error host =
        after_serialize
          (serialize marshal later (some (apply_result_defaults now (outcome result error))))
          (logged_failure error host)

-- The defaults that Execute applies before it serializes leave Serialize nothing to default.
pub apply_result_defaults_twice :
    (now later : Bytes) (r : Result)
    → now ≢ []
    → apply_result_defaults later (apply_result_defaults now r) ≡ apply_result_defaults now r
unfolding apply_result_defaults
apply_result_defaults_twice now later r h = ground arith

-- A host that stands installed keeps its config and its telemetry, takes this payload as its
-- result, and has logged the plugin's error if there was one.
abbrev pub host_with : LocalHost → Bytes → Option Bytes → LocalHost
host_with h payload none = record h { result_json = payload }
host_with h payload (some e) = record h {
  result_json = payload;
  logs = h.logs ++ (record { level = 3; message = str "plugin error" } ∷ []);
}

pub local_submit_fits :
    (h : LocalHost) (payload : Bytes)
    → 0 < length payload
    → length payload ≤ max_payload_bytes
    → submit_result local_host payload (some h) ≡ (fine, some (record h { result_json = payload }))
unfolding submit_result local_submit_result
local_submit_fits h [] p fits = elim p [ ]
local_submit_fits h (c ∷ cs) p fits = ground arith

-- A host that remembers which payloads have been submitted to it.
abbrev pub recorded : {H : Type 0} → ExecuteHost H → ExecuteHost (H × List Bytes)
recorded calls = record {
  host_log = λ level message h. (calls.host_log level message h.0, h.1);
  host_submit = λ payload h.
      let (code, after) = calls.host_submit payload h.0 in (code, (after, h.1 ++ (payload ∷ [])));
}

module _ {H : Type 0} (calls : ExecuteHost H) where
  logged_failure-recorded :
      (error : Option Bytes) (h : H) (sent : List Bytes)
      → logged_failure (recorded calls) error (h, sent) ≡ (logged_failure calls error h, sent)
  logged_failure-recorded none h sent = refl
  logged_failure-recorded (some e) h sent = refl

  after_submit-recorded :
      (r : HostResult) (h : H) (sent : List Bytes)
      → (after_submit (recorded calls) (r, (h, sent))).1.1 ≡ sent
  unfolding after_submit
  after_submit-recorded fine h sent = refl
  after_submit-recorded (failed e) h sent = refl

  after_serialize-recorded :
      (payload : Bytes) (h : H) (sent : List Bytes)
      → null payload ≡ false
      → (after_serialize (recorded calls) (some payload) (h, sent)).1.1 ≡ sent ++ (payload ∷ [])
  unfolding after_serialize submit_result
  after_serialize-recorded payload h sent n = rw n (
      after_submit-recorded (host_err (calls.host_submit payload h).0 (str "submit_result"))
        (calls.host_submit payload h).1 (sent ++ (payload ∷ [])))

null-pos : (payload : Bytes) → 0 < length payload → null payload ≡ false
null-pos [] p = elim p [ ]
null-pos (c ∷ payload) p = refl

module _ (marshal : Result → Option Bytes) (now later : Bytes) where
  pub execute-recorded :
      {H : Type 0} (calls : ExecuteHost H) (result : Option Result) (error : Option Bytes) (h : H)
      (sent : List Bytes) (payload : Bytes)
      → now ≢ []
      → marshal (apply_result_defaults now (outcome result error)) ≡ some payload
      → null payload ≡ false
      → (execute (recorded calls) marshal now later result error (h, sent)).1.1
        ≡ sent ++ (payload ∷ [])
  unfolding execute serialize
  execute-recorded calls result error h sent payload n e p =
      rw
        (
          apply_result_defaults_twice now later (outcome result error) n,
          e,
          logged_failure-recorded calls error h sent,
        )
        (after_serialize-recorded calls payload (logged_failure calls error h) sent p)

  execute-local :
      (result : Option Result) (error : Option Bytes) (h : LocalHost) (payload : Bytes)
      → now ≢ []
      → marshal (apply_result_defaults now (outcome result error)) ≡ some payload
      → 0 < length payload
      → length payload ≤ max_payload_bytes
      → execute local_host marshal now later result error (some h)
        ≡ (none, some (host_with h payload error))
  unfolding execute serialize local_log
  execute-local result none h payload n e p fits =
      rw (apply_result_defaults_twice now later (outcome result none) n)
        (rw e (rw (local_submit_fits h payload p fits)))
  execute-local result (some err) h payload n e p fits =
      rw (apply_result_defaults_twice now later (outcome result (some err)) n)
        (rw e (rw (local_submit_fits (host_with h h.result_json (some err)) payload p fits)))

  -- Execute on the local host, at a time whose text is not empty, returns no error if the encoding of
  -- the plugin's outcome with its defaults succeeds and is a payload of 1 to 2097152 bytes. That
  -- payload is the one thing that it submits, once, and the result of the host afterwards; the config
  -- and the telemetry of the host are what they were, and its log holds one entry more exactly if
  -- the plugin returned an error.
  pub execute_submits :
      (result : Option Result) (error : Option Bytes) (h : LocalHost) (sent : List Bytes)
      (payload : Bytes)
      → now ≢ []
      → marshal (apply_result_defaults now (outcome result error)) ≡ some payload
      → 0 < length payload
      → length payload ≤ max_payload_bytes
      → (execute local_host marshal now later result error (some h)
          ≡ (none, some (host_with h payload error)))
        × ((execute (recorded local_host) marshal now later result error (some h, sent)).1.1
            ≡ sent ++ (payload ∷ []))
  execute_submits result error h sent payload n e p fits = (
    execute-local result error h payload n e p fits,
    execute-recorded local_host result error (some h) sent payload n e (null-pos payload p),
  )

-- Encodings that the host does not take.
abbrev Unfit : Option Bytes → Type 0
Unfit none = Unit {0}
Unfit (some payload) = (payload ≡ []) ⊎ (max_payload_bytes < length payload)

-- An error is returned, and the host's result, config and telemetry stay what they were.
abbrev pub Refuses : LocalHost → Option ExecuteError × Option LocalHost → Type 0
Refuses h (none, host) = ⊥
Refuses h (some e, none) = ⊥
Refuses h (some e, some h') =
    (h'.result_json ≡ h.result_json)
    × (h'.config_json ≡ h.config_json)
    × (h'.telemetry_json ≡ h.telemetry_json)

after_serialize-Refuses :
    (encoded : Option Bytes) (error : Option Bytes) (h : LocalHost)
    → Unfit encoded
    → Refuses h (after_serialize local_host encoded (logged_failure local_host error (some h)))
unfolding after_serialize local_log local_submit_result
after_serialize-Refuses none none h u = ground arith
after_serialize-Refuses none (some e) h u = ground arith
after_serialize-Refuses (some []) none h u = ground arith
after_serialize-Refuses (some []) (some e) h u = ground arith
after_serialize-Refuses (some (c ∷ cs)) none h (inl e) = cc
after_serialize-Refuses (some (c ∷ cs)) (some err) h (inl e) = cc
after_serialize-Refuses (some (c ∷ cs)) none h (inr big) =
    let over : ltb max_payload_bytes (length (c ∷ cs)) ≡ true = lt→ltb _ _ big in
    rw over (refl, refl, refl)
after_serialize-Refuses (some (c ∷ cs)) (some err) h (inr big) =
    let over : ltb max_payload_bytes (length (c ∷ cs)) ≡ true = lt→ltb _ _ big in
    rw over (refl, refl, refl)

-- Where the encoding fails, is empty or is longer than 2097152 bytes, Execute, at a time whose text is
-- not empty, returns an error and
-- the host keeps the result, the config and the telemetry that it had.
pub execute-Refuses :
    (marshal : Result → Option Bytes) (now later : Bytes) (result : Option Result)
    (error : Option Bytes) (h : LocalHost)
    → now ≢ []
    → Unfit (marshal (apply_result_defaults now (outcome result error)))
    → Refuses h (execute local_host marshal now later result error (some h))
unfolding execute serialize
execute-Refuses marshal now later result error h n u =
    rw (apply_result_defaults_twice now later (outcome result error) n) (
      after_serialize-Refuses (marshal (apply_result_defaults now (outcome result error))) error h
        u)
