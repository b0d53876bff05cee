-- ===== src/Tests/Hosts.antt =====
-- sdk/config.go and sdk/http.go on small inputs.
use serviceradar_sdk_go.Base.{ℕ, ◌*◌, ◌<◌, ◌^◌, [], ◌∷◌, ◌++◌, ◌≡◌, refl, none, some, arith, ok}
use serviceradar_sdk_go.Strings.{Bytes, str, pos, unsigned}
use serviceradar_sdk_go.Host.{get_config_bytes}
use serviceradar_sdk_go.Host.Local.{LocalHost, local_get_config}
use serviceradar_sdk_go.Host.Local.Config.{get_config_bytes-local}
use serviceradar_sdk_go.Http.{write_json_string, retry_after_value, seconds}
use serviceradar_sdk_go.Http.JsonText.{read_text, plain, read-write_json_string}
use serviceradar_sdk_go.Http.StatusBody.{
  decode_status_body, encode_status_body, decode-encode_status_body,
}
use serviceradar_sdk_go.Http.Client.{retry_after_seconds}

abbrev host : LocalHost
host = record { config_json = str "{}"; result_json = []; telemetry_json = []; logs = [] }

get_config_bytes-local_example : get_config_bytes (local_get_config (some host)) ≡ ok (str "{}")
get_config_bytes-local_example = get_config_bytes-local host

abbrev quoted : Bytes
quoted = str "a\"b\\c"

read-write_json_string_example :
    (body : Bytes) × (write_json_string quoted ++ str "," ≡ b'"' ∷ body)
    × (read_text plain body ≡ some (quoted, str ","))
read-write_json_string_example = read-write_json_string quoted (str ",")

decode-encode_status_body_example :
    decode_status_body (encode_status_body (pos 404) (str "a\nb")) 5
    ≡ some (record { status = pos 404; headers = []; body = str "a\nb"; duration = 5 })
decode-encode_status_body_example = decode-encode_status_body 404 (str "a\nb") 5 (ground arith)

retry_after_seconds_example :
    (n : ℕ) × (unsigned (str "120") ≡ some n)
    × (120000000000 ≡ n * 1000000000)
    × (120000000000 < 2 ^ 63)
retry_after_seconds_example =
    retry_after_seconds (λ text. none) 0 b'1' (str "20") 120000000000 refl
      (unfold retry_after_value seconds unsigned in refl)
