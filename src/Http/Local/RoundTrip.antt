-- ===== src/Http/Local/RoundTrip.antt =====
-- A request of the HTTP client of sdk/http.go against the native development host.
use serviceradar_sdk_go.Base.{
  ℕ, ◌^◌, ◌%◌, ◌++◌, ◌<◌, ◌≤◌, Bool, true, false, not, ◌&&◌, [], ◌∷◌, ◌≡◌, refl, Option, some, ◌==◌,
  if◌then◌else◌, null, length, ltb, take-length, arith, ok,
}
use serviceradar_sdk_go.Strings.{
  Bytes, str, ℤ, pos, int32_of_lem, equal_fold, trim_space, to_upper, blank, itoaℤ,
}
use serviceradar_sdk_go.Http.{
  HttpRequest, HttpResponse, response_mode_status_body, marshal_http_request_payload,
}
use serviceradar_sdk_go.Http.Client.{
  HttpResponsePayload, max_http_response_bytes, request_payload, read_response, do_context,
}
use serviceradar_sdk_go.Http.StatusBody.{
  encode_status_body, decode_status_body, decode-encode_status_body,
}
use serviceradar_sdk_go.Http.Local.{
  HttpHandled, responded, HttpCodec, HttpHost, decode_local_http_request,
  encode_local_http_response, http_request,
}
use serviceradar_sdk_go.Credentials.Local.{Outside, apply_local_credential_grants}

-- The request as the host sees it: with the method, the mode and the flag that the client sends.
abbrev pub seen_request : HttpRequest → HttpRequest
seen_request req =
    let method = to_upper (trim_space req.method) in
    record req {
      method = if null method then str "GET" else method;
      body_base64 = req.body_base64 && not (null req.body);
      response_mode = response_mode_status_body;
    }

null_snoc : (s : Bytes) (c : ℕ) (t : Bytes) → null (s ++ (c ∷ t)) ≡ false
null_snoc [] c t = refl
null_snoc (d ∷ s) c t = refl

given : (status : ℤ) (body : Bytes) → null (encode_status_body status body) ≡ false
unfolding encode_status_body
given status body = null_snoc (itoaℤ status) b'\n' body

module _ (codec : HttpCodec) (unbase : (x : Bytes) → codec.decode64 (codec.encode64 x) ≡ some x)
    (given64 : (x : Bytes) → null (codec.encode64 x) ≡ null x) where
  abbrev with_content : HttpRequest → Bytes → Bool → HttpRequest
  with_content req body in_base64 = record req { body = body; body_base64 = in_base64 }

  decode_content :
      (req : HttpRequest) (encoded body : Bytes) (in_base64 : Bool)
      → blank req.url ≡ false
      → null (trim_space req.response_mode) ≡ true
      → codec.decode_request encoded
        ≡ some (request_payload codec.encode64 (with_content req body in_base64))
      → decode_local_http_request codec encoded
        ≡ some (seen_request (with_content req body in_base64))
  unfolding decode_local_http_request request_payload
  decode_content req encoded [] true u m e = rw (decode_local_http_request, e, u, m) refl
  decode_content req encoded [] false u m e = rw (decode_local_http_request, e, u, m) refl
  decode_content req encoded (c ∷ body) true u m e =
      rw (decode_local_http_request, e, u, m, given64 (c ∷ body), unbase (c ∷ body))
        (rw (given64 (c ∷ body)) refl)
  decode_content req encoded (c ∷ body) false u m e = rw (decode_local_http_request, e, u, m) refl

  module _ (unmarshal : Bytes → Option HttpResponsePayload) where
    read_lem :
        (encoded : Bytes) (size duration : ℕ) (r : HttpResponse)
        → null encoded ≡ false
        → length encoded ≤ size
        → size < 2 ^ 32
        → decode_status_body encoded duration ≡ some r
        → read_response codec.decode64 unmarshal size duration (pos (length encoded), encoded)
          ≡ ok r
    unfolding read_response
    read_lem [] size duration r n l w d = cc
    read_lem (c ∷ encoded) size duration r n l w d =
        let whole : size % 2 ^ 32 ≡ size = omega arith in
        let some_bytes : (length (c ∷ encoded) == 0) ≡ false = ground arith in
        let fits : ltb size (length (c ∷ encoded)) ≡ false = ground arith in
        rw (some_bytes, whole, fits, take-length (c ∷ encoded), d) refl

    -- If base64 decodes what it encodes and gives no bytes only for no bytes, a request of the client
    -- in the default response mode reaches the handler of the local host as the client has made it,
    -- with the headers that the grants leave it: for a URL that is not blank, a payload that json
    -- passes on unchanged, grants that let the request through, and a handler whose answer has a
    -- status that is not negative and fits the buffer, where the buffer has fewer than 2^32 bytes and
    -- the encoded answer fewer than 2^31, the client returns the status and the body of the answer.
    pub do_context-http_request :
        (outside : Outside) (now max_response duration : ℕ) (host : HttpHost)
        (handler : HttpRequest → HttpHandled) (req allowed : HttpRequest) (r : HttpResponse) (n : ℕ)
        → let size = if max_response == 0 then max_http_response_bytes else max_response in
          blank req.url ≡ false
          → null (trim_space req.response_mode) ≡ true
          → codec.decode_request (marshal_http_request_payload (request_payload codec.encode64 req))
            ≡ some (request_payload codec.encode64 req)
          → host.handler ≡ some handler
          → apply_local_credential_grants outside now host.credentials host.grants
              (seen_request req)
            ≡ ok allowed
          → handler allowed ≡ responded r
          → r.status ≡ pos n
          → n < 2 ^ 63
          → length (encode_status_body (pos n) r.body) ≤ size
          → size < 2 ^ 32
          → length (encode_status_body (pos n) r.body) < 2 ^ 31
          → do_context codec.decode64 unmarshal codec.encode64
              (http_request codec outside now host)
              max_response
              duration
              false
              req
            ≡ ok (record { status = pos n; headers = []; body = r.body; duration = duration })
    unfolding do_context http_request encode_local_http_response read_response equal_fold trim_space
    do_context-http_request outside now max_response duration host handler req allowed r n u m j h g
          a s b l wide short =
        let size = if max_response == 0 then max_http_response_bytes else max_response in
        let encoded = encode_status_body (pos n) r.body in
        let fits : ltb size (length encoded) ≡ false = ground arith in
        rw
          (
            http_request,
            h,
            decode_content req _ req.body req.body_base64 u m j,
            g,
            a,
            s,
            fits,
            int32_of_lem (length encoded) short,
          )
          (read_lem encoded size duration _ (given (pos n) r.body) l wide
            (decode-encode_status_body n r.body duration b))
