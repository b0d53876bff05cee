-- ===== src/Grpc/RoundTrip.antt =====
-- A unary call of the client against the native development host.
use serviceradar_sdk_go.Base.{
  ℕ, ◌≤◌, ◌<◌, ◌^◌, ◌%◌, true, false, ◌≡◌, ◌⊎◌, inl, inr, refl, none, some, if◌then◌else◌, length,
  ltb, take-length, arith, ok,
}
use serviceradar_sdk_go.Strings.{Bytes, pos, int32_of_lem, is_neg, eqℤ, trim_space, to_lower, equal}
use serviceradar_sdk_go.Maps.{Dict}
use serviceradar_sdk_go.Grpc.{
  Codec, GrpcRequest, GrpcResponse, status, grpc_payload, new_grpc_request_payload,
  default_transport, known_transport, transport_tls, transport_h2c, response_buffer_size,
  response_with, decode_grpc_response, read_reply, unary, grpc_code_ok,
}
use serviceradar_sdk_go.Grpc.Local.{
  Handled, responded, normalize_local_grpc_metadata, decoded_request, checked_request,
  decode_local_grpc_request, response_payload, local_limit, write_response, answer, timeout_of,
  grpc_unary,
}
use serviceradar_sdk_go.Grpc.Method.{IsValid, grpc_payload_lem, new_grpc_request_payload_iff}

-- A request whose fields are as they are sent: trimmed, with a transport and bounds.
pub record IsPlain (req : GrpcRequest) : Type 0 where
  pub host_trimmed : trim_space req.target_host ≡ req.target_host
  pub authority_trimmed : trim_space req.authority ≡ req.authority
  pub method_trimmed : trim_space req.method ≡ req.method
  pub transport_given : (req.transport ≡ transport_tls) ⊎ (req.transport ≡ transport_h2c)
  pub timeout_rule : is_neg req.timeout_ms ≡ false
  pub limit_rule : is_neg req.max_response_bytes ≡ false

default_transport_lem :
    (t : Bytes)
    → (t ≡ transport_tls) ⊎ (t ≡ transport_h2c)
    → (default_transport t ≡ t) × (known_transport t ≡ true)
unfolding trim_space to_lower equal
default_transport_lem t (inl e) = rw e (refl, refl)
default_transport_lem t (inr e) = rw e (refl, refl)

module _ (codec : Codec) (unbase : (x : Bytes) → codec.decode64 (codec.encode64 x) ≡ some x) where
  grpc_payload-decoded :
      (req : GrpcRequest)
      → IsPlain req
      → (metadata : Dict Bytes)
      → decoded_request codec (grpc_payload codec req) req.message metadata
        ≡ record req { metadata = metadata }
  unfolding grpc_payload
  grpc_payload-decoded req v metadata =
      rw
        (
          v.host_trimmed,
          v.authority_trimmed,
          v.method_trimmed,
          (default_transport_lem req.transport v.transport_given).0,
        )
        refl

  new_payload_lem :
      (req : GrpcRequest) (metadata : Dict Bytes)
      → IsValid req
      → new_grpc_request_payload codec (record req { metadata = metadata })
        ≡ ok (grpc_payload codec (record req { metadata = metadata }))
  new_payload_lem req metadata v =
      (new_grpc_request_payload_iff codec (record req { metadata = metadata }) _).1 (
        record {
          host_rule = v.host_rule;
          port_positive = v.port_positive;
          port_bound = v.port_bound;
          method_rule = v.method_rule;
          transport_rule = v.transport_rule;
        },
        grpc_payload_lem codec (record req { metadata = metadata }),
      )

  checked_request_lem :
      (req : GrpcRequest) (metadata : Dict Bytes)
      → IsPlain req
      → IsValid req
      → checked_request codec (record req { metadata = metadata })
        ≡ some (record req { metadata = metadata })
  unfolding checked_request
  checked_request_lem req metadata p v =
      let t = default_transport_lem req.transport p.transport_given in
      rw (p.timeout_rule, p.limit_rule, new_payload_lem req metadata v, t.1) refl

  decode_request_lem :
      (req : GrpcRequest) (metadata : Dict Bytes) (encoded : Bytes)
      → IsPlain req
      → IsValid req
      → codec.decode_request encoded ≡ some (grpc_payload codec req)
      → normalize_local_grpc_metadata codec req.metadata ≡ some metadata
      → decode_local_grpc_request codec encoded ≡ some (record req { metadata = metadata })
  unfolding decode_local_grpc_request grpc_payload
  decode_request_lem req metadata encoded p v e n =
      rw (decode_local_grpc_request, e, unbase req.message, n, grpc_payload-decoded req p metadata)
        (checked_request_lem req metadata p v)

  write_response_lem :
      (req : GrpcRequest) (size : ℕ) (r : GrpcResponse) (answered : Bytes)
      → length r.message ≤ local_limit codec req
      → codec.encode_response (response_payload codec r) ≡ some answered
      → length answered ≤ size
      → length answered < 2 ^ 31
      → write_response codec req size r ≡ (pos (length answered), answered)
  unfolding write_response
  write_response_lem req size r answered m a f w =
      let short : ltb (local_limit codec req) (length r.message) ≡ false = ground arith in
      let fits : ltb size (length answered) ≡ false = ground arith in
      rw (short, a, fits, int32_of_lem (length answered) w) refl

  read_reply_lem :
      (size duration : ℕ) (r : GrpcResponse) (answered : Bytes)
      → codec.decode_response answered ≡ some (response_payload codec r)
      → length answered ≤ size
      → size < 2 ^ 32
      → read_reply codec size duration (pos (length answered), answered)
        ≡ response_with codec duration (response_payload codec r) r.message
  unfolding read_reply decode_grpc_response
  read_reply_lem size duration r answered b f w =
      let whole : size % 2 ^ 32 ≡ size = omega arith in
      let fits : ltb size (length answered) ≡ false = ground arith in
      rw (whole, fits, take-length answered, decode_grpc_response, b, unbase r.message) refl

  -- If base64 decodes what it encodes, a local handler's answer comes back whole: for a request with
  -- trimmed fields and in range, whose metadata the host accepts, that json passes to the host
  -- unchanged, to which the handler responds with a message within the limit, and whose response json
  -- passes back in fewer than 2^31 bytes within the buffer, which has fewer than 2^32, Unary returns
  -- that response, with a status error exactly if its status is not OK.
  pub unary-grpc_unary :
      (client_limit duration : ℕ) (handler : ℕ → GrpcRequest → Handled) (req : GrpcRequest)
      (metadata : Dict Bytes) (encoded answered : Bytes) (r : GrpcResponse)
      → IsPlain req
      → IsValid req
      → codec.encode_request (grpc_payload codec req) ≡ some encoded
      → codec.decode_request encoded ≡ some (grpc_payload codec req)
      → normalize_local_grpc_metadata codec req.metadata ≡ some metadata
      → handler (timeout_of req) (record req { metadata = metadata }) ≡ responded r
      → length r.message ≤ local_limit codec req
      → codec.encode_response (response_payload codec r) ≡ some answered
      → codec.decode_response answered ≡ some (response_payload codec r)
      → length answered ≤ response_buffer_size client_limit req.max_response_bytes
      → response_buffer_size client_limit req.max_response_bytes < 2 ^ 32
      → length answered < 2 ^ 31
      → unary codec client_limit false (grpc_unary codec (some handler)) duration req ≡ (
        some (record r { duration = duration }),
        if eqℤ r.status grpc_code_ok
            then none
            else some (
                status
                  (record { code = r.status; message = r.status_message; trailers = r.trailers })),
      )
  unfolding unary grpc_unary answer response_with local_limit timeout_of
  unary-grpc_unary client_limit duration handler req metadata encoded answered r p v e d n h m a b f
        wide short =
      let size = response_buffer_size client_limit req.max_response_bytes in
      rw
        (
          (new_grpc_request_payload_iff codec req _).1 (v, grpc_payload_lem codec req),
          e,
          grpc_unary,
          decode_request_lem req metadata encoded p v d n,
          h,
          write_response_lem (record req { metadata = metadata }) size r answered m a f short,
          read_reply_lem size duration r answered b f wide,
        )
        refl
