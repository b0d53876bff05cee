-- ===== src/Tests/LocalRuns.antt =====
-- sdk/local_inputs.go and the HTTP call of sdk/local_host.go on small inputs.
use serviceradar_sdk_go.Base.{true, false, [], ◌∷◌, ◌≡◌, refl, none, some, map, arith, ok}
use serviceradar_sdk_go.Strings.{Bytes, str, pos, itoa, digits_from, blank, trim_space, to_upper}
use serviceradar_sdk_go.Maps.{Dict, lookup}
use serviceradar_sdk_go.Http.{HttpRequest, HttpResponse, marshal_http_request_payload}
use serviceradar_sdk_go.Http.Client.{request_payload, do_context}
use serviceradar_sdk_go.Http.StatusBody.{encode_status_body}
use serviceradar_sdk_go.Http.Local.{HttpHandled, responded, HttpCodec, HttpHost, http_request}
use serviceradar_sdk_go.Http.Local.RoundTrip.{seen_request, do_context-http_request}
use serviceradar_sdk_go.Credentials.Local.{Outside, apply_local_credential_grants}
use serviceradar_sdk_go.LocalInputs.{
  valid_local_env_key, read_env_lines, parse_environment, overlay_environment,
}
use serviceradar_sdk_go.LocalInputs.Reading.{env_line, insert_entries, read_env_lines-quoted}
use serviceradar_sdk_go.LocalInputs.Precedence.{over, lookup-overlay_environment}

abbrev entries : Dict Bytes
entries = (str "TOKEN_1", str " it's # not 'a comment ") ∷ (str "_x", []) ∷ []

valid_one : valid_local_env_key (str "TOKEN_1") ≡ true
unfolding valid_local_env_key
valid_one = refl

valid_two : valid_local_env_key (str "_x") ≡ true
unfolding valid_local_env_key
valid_two = refl

read_env_lines-quoted_example :
    read_env_lines (λ v. none) (map env_line entries) [] ≡ ok (insert_entries entries [])
read_env_lines-quoted_example =
    read_env_lines-quoted (λ v. none) entries (valid_one, (valid_two, tt))

lookup-overlay_environment_example :
    lookup
      (str "A")
      (overlay_environment ((str "A", str "file") ∷ []) (parse_environment (str "A=process" ∷ [])))
    ≡ over
        (lookup (str "A") (parse_environment (str "A=process" ∷ [])))
        (lookup (str "A") ((str "A", str "file") ∷ []))
lookup-overlay_environment_example =
    lookup-overlay_environment (str "A") ((str "A", str "file") ∷ []) (str "A=process" ∷ [])

abbrev request : HttpRequest
request = record {
  method = str "post";
  url = str "http://a.test/x";
  headers = [];
  body = str "q";
  body_base64 = true;
  response_mode = [];
  timeout_ms = pos 0;
  insecure_skip_verify = false;
}

-- A json that knows one request, and a base64 that keeps the bytes.
abbrev codec : HttpCodec
codec = record {
  decode_request = λ t. some (record {
    method = str "POST";
    url = str "http://a.test/x";
    headers = [];
    body = [];
    body_base64 = str "q";
    response_mode = str "status_body";
    timeout_ms = pos 0;
    insecure_skip_verify = false;
  });
  encode_envelope = λ status headers body. none;
  encode64 = λ x. x;
  decode64 = λ x. some x;
}

abbrev response : HttpResponse
response = record { status = pos 201; headers = []; body = str "made"; duration = 0 }

abbrev handler : HttpRequest → HttpHandled
handler r = responded response

abbrev host : HttpHost
host = record { handler = some handler; grants = []; credentials = [] }

abbrev outside : Outside
outside = record {
  parse_url = λ t. none;
  parse_time = λ t. none;
  sprint = λ v. [];
  digest = λ t. [];
}

url_given : blank request.url ≡ false
unfolding blank
url_given = refl

payload_read :
    codec.decode_request (marshal_http_request_payload (request_payload codec.encode64 request))
    ≡ some (request_payload codec.encode64 request)
unfolding request_payload to_upper trim_space
payload_read = refl

let_through :
    apply_local_credential_grants outside 0 host.credentials host.grants (seen_request request)
    ≡ ok (seen_request request)
unfolding apply_local_credential_grants
let_through = refl

do_context-http_request_example :
    do_context codec.decode64
      (λ t. none)
      codec.encode64
      (http_request codec outside 0 host)
      64
      7
      false
      request
    ≡ ok (record { status = pos 201; headers = []; body = str "made"; duration = 7 })
do_context-http_request_example =
    do_context-http_request codec (λ x. refl) (λ x. refl) (λ t. none) outside 0 64 7 host handler
      request (seen_request request) response 201 url_given (unfold trim_space in refl) payload_read
      refl let_through refl refl (ground arith)
      (unfold encode_status_body itoa digits_from in ground arith) (ground arith)
      (unfold encode_status_body itoa digits_from in ground arith)
