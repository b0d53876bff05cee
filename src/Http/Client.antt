-- ===== src/Http/Client.antt =====
-- sdk/http.go: HTTPClient.DoContext and RetryAfter.
use serviceradar_sdk_go.Base.{
  ℕ, ◌*◌, ◌^◌, ◌<◌, Bool, true, [], ◌∷◌, ◌≡◌, refl, Option, none, some, ◌==◌, if◌then◌else◌, null,
  ltb, take, arith, Result, ok, err, ◌%◌,
}
use serviceradar_sdk_go.Strings.{
  Bytes, str, ℤ, pos, is_neg, eqℤ, to_ℕ, is_digit, trim_space, to_upper, unsigned,
}
use serviceradar_sdk_go.Maps.{Dict}
use serviceradar_sdk_go.Host.{HostError, host_err_too_large}
use serviceradar_sdk_go.Http.{
  HttpRequest, HttpResponse, HttpRequestPayload, response_mode_status_body,
  marshal_http_request_payload, retry_after_value, seconds,
}
use serviceradar_sdk_go.Http.StatusBody.{decode_status_body}

pub data HttpError : Type 0 where
  cancelled : HttpError
  host : HostError → HttpError
  bad_envelope bad_body : HttpError

-- What json.Unmarshal gives for a response envelope.
pub record HttpResponsePayload : Type 0 where
  pub status : ℤ
  pub headers : Dict Bytes
  pub body_base64 : Bytes

abbrev pub max_http_response_bytes : ℕ
max_http_response_bytes = 4 * 1024 * 1024

abbrev http_error : ℤ → HttpError
http_error code = host (record { code = code; op = str "http_request" })

module _ (encode64 : Bytes → Bytes) where
  -- The payload that DoContext builds from a request.
  unfoldable pub request_payload : HttpRequest → HttpRequestPayload
  request_payload req =
      let method = to_upper (trim_space req.method) in
      let mode = trim_space req.response_mode in
      record {
        method = if null method then str "GET" else method;
        url = req.url;
        headers = req.headers;
        body = if null req.body then [] else if req.body_base64 then [] else req.body;
        body_base64 =
            if null req.body then [] else if req.body_base64 then encode64 req.body else [];
        response_mode = if null mode then response_mode_status_body else mode;
        timeout_ms = req.timeout_ms;
        insecure_skip_verify = req.insecure_skip_verify;
      }

module _ (decode64 : Bytes → Option Bytes) (unmarshal : Bytes → Option HttpResponsePayload) where
  decode_body : HttpResponsePayload → ℕ → Option Bytes → Result HttpError HttpResponse
  decode_body p duration none = err bad_body
  decode_body p duration (some body) =
      ok (record { status = p.status; headers = p.headers; body = body; duration = duration })

  decode_payload : ℕ → Option HttpResponsePayload → Result HttpError HttpResponse
  decode_payload duration none = err bad_envelope
  decode_payload duration (some p) = decode_body p duration (decode64 p.body_base64)

  unfoldable pub decode_envelope : Bytes → ℕ → Result HttpError HttpResponse
  unfolding decode_payload decode_body
  decode_envelope payload duration = decode_payload duration (unmarshal payload)

  -- A payload that is no status line and body is read as an envelope.
  decode_either : Bytes → ℕ → Option HttpResponse → Result HttpError HttpResponse
  decode_either payload duration (some response) = ok response
  decode_either payload duration none = decode_envelope payload duration

  -- The code behind the host call; `size` is the length of the buffer.
  unfoldable pub read_response : ℕ → ℕ → ℤ × Bytes → Result HttpError HttpResponse
  unfolding decode_either
  read_response size duration (res, buf) =
      if is_neg res
      then err (http_error res)
      else if eqℤ res (pos 0)
      then ok (record { status = pos 0; headers = []; body = []; duration = duration })
      else if ltb (size % 2 ^ 32) (to_ℕ res)
      then err (http_error host_err_too_large)
      else decode_either (take (to_ℕ res) buf) duration
          (decode_status_body (take (to_ℕ res) buf) duration)

  -- `call` is the host call on an encoded request and the length of the response buffer.
  unfoldable pub do_context :
      (Bytes → Bytes)
      → (Bytes → ℕ → ℤ × Bytes)
      → ℕ
      → ℕ
      → Bool
      → HttpRequest
      → Result HttpError HttpResponse
  do_context encode64 call max_response_bytes duration context_done req =
      let size = if max_response_bytes == 0 then max_http_response_bytes else max_response_bytes in
      if context_done
      then err cancelled
      else read_response size duration
          (call (marshal_http_request_payload (request_payload encode64 req)) size)

seconds_bound :
    (o : Option ℕ) (wait : ℕ)
    → seconds o ≡ some wait
    → (n : ℕ) × (o ≡ some n) × (wait ≡ n * 1000000000) × (wait < 2 ^ 63)
unfolding seconds
seconds_bound none wait h = cc
seconds_bound (some n) wait h = (n, refl, ground arith, ground arith)

-- Where a Retry-After that begins with a digit gives a wait, the wait is the number of seconds in nanoseconds, and it always fits a
-- time.Duration.
pub retry_after_seconds :
    (parse_time : Bytes → Option ℕ) (now c : ℕ) (cs : Bytes) (wait : ℕ)
    → is_digit c ≡ true
    → retry_after_value parse_time now (c ∷ cs) ≡ some wait
    → (n : ℕ) × (unsigned (c ∷ cs) ≡ some n) × (wait ≡ n * 1000000000) × (wait < 2 ^ 63)
unfolding retry_after_value
retry_after_seconds parse_time now c cs wait d h =
    seconds_bound (unsigned (c ∷ cs)) wait (rw d at h)
