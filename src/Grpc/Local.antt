-- ===== src/Grpc/Local.antt =====
-- sdk/local_grpc.go: the grpc_unary call of the native development host. What a handler does, and
-- whether the deadline passed in it, is its outcome; its result does not carry the message of its
-- error, which the code drops.
use serviceradar_sdk_go.Base.{
  ℕ, ◌*◌, Bool, false, ◌&&◌, ◌||◌, List, [], ◌∷◌, Option, none, some, if◌then◌else◌, null, length,
  ltb, ok, err,
}
use serviceradar_sdk_go.Strings.{
  Bytes, str, ℤ, int32_of, is_neg, is_pos, to_ℕ, equal, has_prefix, has_suffix, trim_space,
  to_lower,
}
use serviceradar_sdk_go.Maps.{Dict, lookup, insert}
use serviceradar_sdk_go.Host.{
  host_err_not_found, host_err_invalid, host_err_timeout, host_err_too_large, host_err_internal,
}
use serviceradar_sdk_go.Grpc.{
  Codec, GrpcRequest, GrpcResponse, GrpcRequestPayload, GrpcResponsePayload,
  new_grpc_request_payload, known_transport, max_grpc_response_bytes, grpc_code_unavailable,
}

pub data Handled : Type 0 where
  responded : GrpcResponse → Handled
  failed timed_out : Handled

abbrev pub reserved_metadata : List Bytes
reserved_metadata =
    str "connection"
    ∷ str "content-type"
    ∷ str "host"
    ∷ str "keep-alive"
    ∷ str "proxy-connection"
    ∷ str "te"
    ∷ str "transfer-encoding"
    ∷ str "upgrade"
    ∷ []

abbrev pub member : Bytes → List Bytes → Bool
member name [] = false
member name (x ∷ xs) = equal name x || member name xs

abbrev pub default_timeout_ms : ℕ
default_timeout_ms = 10 * 1000

unfoldable pub timeout_of : GrpcRequest → ℕ
timeout_of request =
    if is_pos request.timeout_ms then to_ℕ request.timeout_ms else default_timeout_ms

abbrev pub forbidden_key : Bytes → Bool
forbidden_key name =
    member name reserved_metadata
    || null name
    || has_prefix name (str ":")
    || has_prefix name (str "grpc-")

abbrev bad_binary : Option Bytes → Bytes → Bool
bad_binary none name = has_suffix name (str "-bin")
bad_binary (some value) name = false

module _ (codec : Codec) where
  -- The entries that are left, and the map that has been built.
  unfoldable pub normalize_from : Dict Bytes → Dict Bytes → Option (Dict Bytes)
  normalize_from [] normalized = some normalized
  normalize_from ((key, value) ∷ metadata) normalized =
      let name = to_lower (trim_space key) in
      let rest = normalize_from metadata (insert name value normalized) in
      if forbidden_key name then none else elim (lookup name normalized) [
        | some duplicate ↦ none
        | none ↦ if bad_binary (codec.decode64 value) name then none else rest
      ]

  unfoldable pub normalize_local_grpc_metadata : Dict Bytes → Option (Dict Bytes)
  unfolding normalize_from
  normalize_local_grpc_metadata metadata = normalize_from metadata []

  abbrev pub decoded_request : GrpcRequestPayload → Bytes → Dict Bytes → GrpcRequest
  decoded_request payload message metadata = record {
    target_host = payload.target_host;
    target_port = payload.target_port;
    authority = payload.authority;
    method = payload.method;
    metadata = metadata;
    message = message;
    timeout_ms = payload.timeout_ms;
    transport = payload.transport;
    tls = payload.tls;
    max_response_bytes = payload.max_response_bytes;
  }

  -- The checks on the bounds, the shape and the transport.
  unfoldable pub checked_request : GrpcRequest → Option GrpcRequest
  checked_request request =
      if is_neg request.timeout_ms || is_neg request.max_response_bytes
      then none
      else elim (new_grpc_request_payload codec request) [
        | err e ↦ none
        | ok payload ↦ if known_transport request.transport then some request else none
      ]

  unfoldable pub decode_local_grpc_request : Bytes → Option GrpcRequest
  decode_local_grpc_request encoded = elim (codec.decode_request encoded) [
    | none ↦ none
    | some payload ↦ elim (codec.decode64 payload.message_base64) [
      | none ↦ none
      | some message ↦ elim (normalize_local_grpc_metadata payload.metadata) [
        | none ↦ none
        | some metadata ↦ checked_request (decoded_request payload message metadata)
      ]
    ]
  ]

  abbrev pub response_payload : GrpcResponse → GrpcResponsePayload
  response_payload response = record {
    grpc_status = response.status;
    grpc_message = response.status_message;
    headers = response.headers;
    trailers = response.trailers;
    message_base64 = codec.encode64 response.message;
  }

  abbrev unavailable : GrpcResponse
  unavailable = record {
    status = grpc_code_unavailable;
    status_message = str "local grpc handler failed";
    headers = [];
    trailers = [];
    message = [];
    duration = 0;
  }

  abbrev pub written : Option Bytes → ℕ → ℤ × Bytes
  written none size = (host_err_internal, [])
  written (some encoded) size =
      if ltb size (length encoded)
      then (host_err_too_large, [])
      else (int32_of (length encoded), encoded)

  -- The bound of the request on a response message, at most that of the host.
  unfoldable pub local_limit : GrpcRequest → ℕ
  local_limit request =
      if is_pos request.max_response_bytes
        && ltb (to_ℕ request.max_response_bytes) max_grpc_response_bytes
      then to_ℕ request.max_response_bytes
      else max_grpc_response_bytes

  unfoldable pub write_response : GrpcRequest → ℕ → GrpcResponse → ℤ × Bytes
  write_response request size response =
      if ltb (local_limit request) (length response.message)
      then (host_err_too_large, [])
      else written (codec.encode_response (response_payload response)) size

  unfoldable pub answer : GrpcRequest → ℕ → Handled → ℤ × Bytes
  answer request size timed_out = (host_err_timeout, [])
  answer request size failed = write_response request size unavailable
  answer request size (responded response) = write_response request size response

  -- A handler is given the timeout in milliseconds with its request.
  unfoldable pub grpc_unary : Option (ℕ → GrpcRequest → Handled) → Bytes → ℕ → ℤ × Bytes
  grpc_unary none encoded size = (host_err_not_found, [])
  grpc_unary (some handler) encoded size = elim (decode_local_grpc_request encoded) [
    | none ↦ (host_err_invalid, [])
    | some request ↦ answer request size (handler (timeout_of request) request)
  ]
