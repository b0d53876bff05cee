-- ===== src/Tests/Results.antt =====
-- sdk/result.go and sdk/execute.go on a small result.
use serviceradar_sdk_go.Base.{
  ℕ, ◌≤◌, Bool, [], ◌++◌, ◌≡◌, refl, Option, none, some, leb, arith, ◌∷◌,
}
use serviceradar_sdk_go.Strings.{Bytes, str, equal}
use serviceradar_sdk_go.Host.Local.{LocalHost}
use serviceradar_sdk_go.Result.{Result, new_result, apply_result_defaults}
use serviceradar_sdk_go.Result.Thresholds.{apply_thresholds, rank, rank-apply_thresholds_mono}
use serviceradar_sdk_go.Result.Execute.{
  local_host, recorded, outcome, execute, execute_submits, Refuses, execute-Refuses, host_with,
}

abbrev host : LocalHost
host = record { config_json = []; result_json = str "old"; telemetry_json = []; logs = [] }

abbrev now : Bytes
now = str "2026-01-01T00:00:00Z"

-- An encoder that writes the status and the summary.
abbrev marshal : Result → Option Bytes
marshal r = some (r.status ++ (str ":" ++ r.summary))

execute_submits_example :
    (execute local_host marshal now now (some new_result) none (some host)
      ≡ (none, some (host_with host (str "UNKNOWN:UNKNOWN") none)))
    × ((execute (recorded local_host) marshal now now (some new_result) none (some host, [])).1.1
        ≡ str "UNKNOWN:UNKNOWN" ∷ [])
execute_submits_example =
    execute_submits marshal now now (some new_result) none host [] (str "UNKNOWN:UNKNOWN") (λ e. cc)
      (unfold apply_result_defaults outcome in refl) (ground arith) (ground arith)

execute-Refuses_example :
    Refuses host (execute local_host (λ r. none) now now none (some (str "boom")) (some host))
execute-Refuses_example =
    execute-Refuses (λ r. none) now now none (some (str "boom")) host (λ e. cc) tt

abbrev at_least : ℕ → ℕ → Bool
at_least a b = leb b a

rank-apply_thresholds_mono_example :
    rank (apply_thresholds at_least new_result 5 (some 3) (some 9)).status
    ≤ rank (apply_thresholds at_least new_result 10 (some 3) (some 9)).status
rank-apply_thresholds_mono_example =
    rank-apply_thresholds_mono at_least (λ a b c p q. ground arith) new_result 10 5 (some 3)
      (some 9) (unfold rank equal in refl) refl
