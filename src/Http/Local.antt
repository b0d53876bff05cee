-- ===== src/Http/Local.antt =====
-- sdk/local_host.go: the HTTP call of the native development host. encoding/json and base64 are
-- parameters, and what a handler does, and whether the deadline passed in it, is its outcome.
pub mod RoundTrip
use serviceradar_sdk_go.Base.{
  ℕ, Bool, not, ◌&&◌, ◌||◌, List, [], Option, none, some, if◌then◌else◌, null, length, ltb, Result,
  ok, err,
}
use serviceradar_sdk_go.Strings.{Bytes, ℤ, int32_of, equal_fold, trim_space, blank}
use serviceradar_sdk_go.Maps.{Dict}
use serviceradar_sdk_go.Host.{
  host_err_not_found, host_err_invalid, host_err_denied, host_err_timeout, host_err_too_large,
  host_err_internal,
}
use serviceradar_sdk_go.Http.{
  HttpRequest, HttpResponse, HttpRequestPayload, response_mode_status_body,
}
use serviceradar_sdk_go.Http.StatusBody.{encode_status_body}
use serviceradar_sdk_go.Credentials.{CredentialBrokerGrant}
use serviceradar_sdk_go.Credentials.Local.{Outside, apply_local_credential_grants}

pub data HttpHandled : Type 0 where
  responded : HttpResponse → HttpHandled
  failed timed_out : HttpHandled

-- json.Unmarshal of a request, json.Marshal of a response envelope, and base64
pub record HttpCodec : Type 0 where
  pub decode_request : Bytes → Option HttpRequestPayload
  pub encode_envelope : ℤ → Dict Bytes → Bytes → Option Bytes
  pub encode64 : Bytes → Bytes
  pub decode64 : Bytes → Option Bytes

-- What a run gives to the HTTP call: its handler, its grants and its credentials.
pub record HttpHost : Type 0 where
  pub handler : Option (HttpRequest → HttpHandled)
  pub grants : List CredentialBrokerGrant
  pub credentials : Dict Bytes

module _ (codec : HttpCodec) where
  abbrev decoded_body : HttpRequestPayload → Option Bytes
  decoded_body p = if null p.body_base64 then some p.body else codec.decode64 p.body_base64

  abbrev pub request_of : HttpRequestPayload → Bytes → HttpRequest
  request_of p body = record {
    method = p.method;
    url = p.url;
    headers = p.headers;
    body = body;
    body_base64 = not (null p.body_base64);
    response_mode = p.response_mode;
    timeout_ms = p.timeout_ms;
    insecure_skip_verify = p.insecure_skip_verify;
  }

  abbrev with_body : HttpRequestPayload → Option Bytes → Option HttpRequest
  with_body p none = none
  with_body p (some body) = some (request_of p body)

  abbrev checked_payload : HttpRequestPayload → Option HttpRequest
  checked_payload p =
      if blank p.url || (not (null p.body) && not (null p.body_base64))
      then none
      else with_body p (decoded_body p)

  -- The response mode that the code returns beside the request is the request's own.
  unfoldable pub decode_local_http_request : Bytes → Option HttpRequest
  decode_local_http_request encoded = elim (codec.decode_request encoded) [
    | none ↦ none
    | some p ↦ checked_payload p
  ]

  unfoldable pub encode_local_http_response : Bytes → HttpResponse → Option Bytes
  encode_local_http_response mode response =
      if equal_fold (trim_space mode) response_mode_status_body || blank mode
      then some (encode_status_body response.status response.body)
      else codec.encode_envelope response.status response.headers (codec.encode64 response.body)

  abbrev written : ℕ → Option Bytes → ℤ × Bytes
  written size none = (host_err_internal, [])
  written size (some encoded) =
      if ltb size (length encoded)
      then (host_err_too_large, [])
      else (int32_of (length encoded), encoded)

  abbrev answered : ℕ → Bytes → HttpHandled → ℤ × Bytes
  answered size mode failed = (host_err_internal, [])
  answered size mode timed_out = (host_err_timeout, [])
  answered size mode (responded response) = written size (encode_local_http_response mode response)

  -- httpRequest; the mode of the response is that of the request before the grants are applied.
  unfoldable pub http_request : Outside → ℕ → HttpHost → Bytes → ℕ → ℤ × Bytes
  unfolding encode_local_http_response
  http_request outside now host encoded size = elim host.handler [
    | none ↦ (host_err_not_found, [])
    | some handler ↦ elim (decode_local_http_request encoded) [
      | none ↦ (host_err_invalid, [])
      | some request ↦
          elim (apply_local_credential_grants outside now host.credentials host.grants request) [
            | err e ↦ (host_err_denied, [])
            | ok allowed ↦ answered size request.response_mode (handler allowed)
          ]
    ]
  ]
