-- ===== src/Grpc.antt =====
-- sdk/grpc.go: unary gRPC calls through the host. encoding/json and base64 are parameters, as is the
-- host call, which takes the length of the response buffer and gives its result and what the buffer
-- then holds.
pub mod Local
pub mod Method
pub mod RoundTrip
use serviceradar_sdk_go.Base.{
  ℕ, ◌+◌, ◌-◌, ◌*◌, ◌/◌, ◌≤◌, Bool, true, false, not, ◌&&◌, ◌||◌, List, [], ◌∷◌, ◌++◌, Option, none,
  some, ◌==◌, if◌then◌else◌, null, length, ltb, leb, take, Result, ok, err, guard, ◌>>=◌, ◌>>◌, map,
  get_elem?, ◌%◌, ◌^◌,
}
use serviceradar_sdk_go.Strings.{
  Bytes, str, ℤ, pos, negsuc, is_neg, is_pos, to_ℕ, eqℤ, itoaℤ, equal, contains, cut, trim_space,
  to_lower,
}
use serviceradar_sdk_go.Maps.{Dict}
use serviceradar_sdk_go.Host.{HostError, host_err_too_large}

abbrev pub max_grpc_response_bytes : ℕ
max_grpc_response_bytes = 4 * 1024 * 1024

abbrev pub grpc_response_envelope_overhead : ℕ
grpc_response_envelope_overhead = 64 * 1024

abbrev pub transport_tls : Bytes
transport_tls = str "tls"

abbrev pub transport_h2c : Bytes
transport_h2c = str "h2c"

-- GRPCCodeOK and GRPCCodeUnavailable
abbrev pub grpc_code_ok : ℤ
grpc_code_ok = pos 0

abbrev pub grpc_code_unavailable : ℤ
grpc_code_unavailable = pos 14

abbrev pub grpc_code_names : List Bytes
grpc_code_names =
    str "OK"
    ∷ str "CANCELED"
    ∷ str "UNKNOWN"
    ∷ str "INVALID_ARGUMENT"
    ∷ str "DEADLINE_EXCEEDED"
    ∷ str "NOT_FOUND"
    ∷ str "ALREADY_EXISTS"
    ∷ str "PERMISSION_DENIED"
    ∷ str "RESOURCE_EXHAUSTED"
    ∷ str "FAILED_PRECONDITION"
    ∷ str "ABORTED"
    ∷ str "OUT_OF_RANGE"
    ∷ str "UNIMPLEMENTED"
    ∷ str "INTERNAL"
    ∷ str "UNAVAILABLE"
    ∷ str "DATA_LOSS"
    ∷ str "UNAUTHENTICATED"
    ∷ []

abbrev code_number : ℤ → Bytes
code_number c = str "CODE(" ++ (itoaℤ c ++ str ")")

-- GRPCCode.String
abbrev pub code_string : ℤ → Bytes
code_string (pos c) = elim (get_elem? grpc_code_names c) [
  | some name ↦ name
  | none ↦ code_number (pos c)
]
code_string (negsuc c) = code_number (negsuc c)

pub record GrpcTlsConfig : Type 0 where
  pub server_name : Bytes
  pub insecure_skip_verify : Bool

pub record GrpcRequest : Type 0 where
  pub target_host : Bytes
  pub target_port : ℤ
  pub authority : Bytes
  pub method : Bytes
  pub metadata : Dict Bytes
  pub message : Bytes
  pub timeout_ms : ℤ
  pub transport : Bytes
  pub tls : Option GrpcTlsConfig
  pub max_response_bytes : ℤ

pub record GrpcResponse : Type 0 where
  pub status : ℤ
  pub status_message : Bytes
  pub headers : Dict (List Bytes)
  pub trailers : Dict (List Bytes)
  pub message : Bytes
  pub duration : ℕ

pub record GrpcStatusError : Type 0 where
  pub code : ℤ
  pub message : Bytes
  pub trailers : Dict (List Bytes)

unfoldable pub status_error_text : GrpcStatusError → Bytes
status_error_text e =
    if null e.message
    then str "grpc status " ++ code_string e.code
    else str "grpc status " ++ (code_string e.code ++ (str ": " ++ e.message))

-- The type is that of the configuration, with JSON names.
pub record GrpcRequestPayload : Type 0 where
  pub target_host : Bytes
  pub target_port : ℤ
  pub authority : Bytes
  pub method : Bytes
  pub metadata : Dict Bytes
  pub message_base64 : Bytes
  pub timeout_ms : ℤ
  pub transport : Bytes
  pub tls : Option GrpcTlsConfig
  pub max_response_bytes : ℤ

pub record GrpcResponsePayload : Type 0 where
  pub grpc_status : ℤ
  pub grpc_message : Bytes
  pub headers : Dict (List Bytes)
  pub trailers : Dict (List Bytes)
  pub message_base64 : Bytes

pub data GrpcError : Type 0 where
  cancelled missing_target invalid_port invalid_method transport marshal bad_envelope bad_message :
      GrpcError
  host : HostError → GrpcError
  status : GrpcStatusError → GrpcError

-- What the code takes from encoding/json and encoding/base64.
pub record Codec : Type 0 where
  pub encode_request : GrpcRequestPayload → Option Bytes
  pub decode_request : Bytes → Option GrpcRequestPayload
  pub encode_response : GrpcResponsePayload → Option Bytes
  pub decode_response : Bytes → Option GrpcResponsePayload
  pub encode64 : Bytes → Bytes
  pub decode64 : Bytes → Option Bytes

-- validGRPCMethod; the cut is of method[1:].
abbrev method_parts : Bytes → Bool
method_parts rest =
    let parts = cut rest (str "/") in
    parts.2 && not (null parts.0) && not (null parts.1) && not (contains parts.1 (str "/"))

unfoldable pub valid_grpc_method : Bytes → Bool
valid_grpc_method [] = false
valid_grpc_method (c ∷ rest) = leb 4 (length (c ∷ rest)) && c == b'/' && method_parts rest

-- base64.StdEncoding.EncodedLen
abbrev pub encoded_len : ℕ → ℕ
encoded_len n = (n + 2) / 3 * 4

-- The first number is the client's MaxResponseBytes, a uint32; int is 64 bits wide.
unfoldable pub response_limit : ℕ → ℤ → ℕ
response_limit client_limit request_limit =
    let limit = if client_limit == 0 then max_grpc_response_bytes else client_limit in
    if is_pos request_limit && ltb (to_ℕ request_limit) limit then to_ℕ request_limit else limit

unfoldable pub response_buffer_size : ℕ → ℤ → ℕ
unfolding response_limit
response_buffer_size client_limit request_limit =
    encoded_len (response_limit client_limit request_limit) + grpc_response_envelope_overhead

abbrev pub default_transport : Bytes → Bytes
default_transport given = let t = to_lower (trim_space given) in if null t then transport_tls else t

abbrev pub port_in_range : ℤ → Bool
port_in_range port = is_pos port && leb (to_ℕ port) 65535

abbrev pub known_transport : Bytes → Bool
known_transport t = equal t transport_tls || equal t transport_h2c

module _ (codec : Codec) where
  unfoldable pub grpc_payload : GrpcRequest → GrpcRequestPayload
  grpc_payload req = record {
    target_host = trim_space req.target_host;
    target_port = req.target_port;
    authority = trim_space req.authority;
    method = trim_space req.method;
    metadata = req.metadata;
    message_base64 = codec.encode64 req.message;
    timeout_ms = req.timeout_ms;
    transport = default_transport req.transport;
    tls = req.tls;
    max_response_bytes = req.max_response_bytes;
  }

  unfoldable pub new_grpc_request_payload : GrpcRequest → Result GrpcError GrpcRequestPayload
  new_grpc_request_payload req =
      if null (trim_space req.target_host)
      then err missing_target
      else if not (port_in_range req.target_port)
      then err invalid_port
      else if not (valid_grpc_method (trim_space req.method))
      then err invalid_method
      else if not (known_transport (default_transport req.transport))
      then err transport
      else ok (grpc_payload req)

  -- The response and the error of a call; a status other than OK gives both.
  unfoldable pub response_with :
      ℕ → GrpcResponsePayload → Bytes → Option GrpcResponse × Option GrpcError
  response_with duration decoded message =
      let response : GrpcResponse = record {
        status = decoded.grpc_status;
        status_message = decoded.grpc_message;
        headers = decoded.headers;
        trailers = decoded.trailers;
        message = message;
        duration = duration;
      } in
      let failure : GrpcStatusError = record {
        code = decoded.grpc_status;
        message = decoded.grpc_message;
        trailers = decoded.trailers;
      } in
      (some response, if eqℤ decoded.grpc_status grpc_code_ok then none else some (status failure))

  unfoldable pub decode_grpc_response : Bytes → ℕ → Option GrpcResponse × Option GrpcError
  decode_grpc_response payload duration = elim (codec.decode_response payload) [
    | none ↦ (none, some bad_envelope)
    | some decoded ↦ elim (codec.decode64 decoded.message_base64) [
      | none ↦ (none, some bad_message)
      | some message ↦ response_with duration decoded message
    ]
  ]

  abbrev grpc_error : ℤ → GrpcError
  grpc_error code = host (record { code = code; op = str "grpc_unary" })

  -- What Unary makes of the result of the host call, a buffer of the given size and its content; the
  -- test compares with `uint32(len(respBuf))`.
  unfoldable pub read_reply : ℕ → ℕ → ℤ × Bytes → Option GrpcResponse × Option GrpcError
  read_reply size duration reply =
      if is_neg reply.0
      then (none, some (grpc_error reply.0))
      else if ltb (size % 2 ^ 32) (to_ℕ reply.0)
      then (none, some (grpc_error host_err_too_large))
      else decode_grpc_response (take (to_ℕ reply.0) reply.1) duration

  -- `done` tells whether the context has ended; the first number is the client's MaxResponseBytes.
  unfoldable pub unary :
      ℕ → Bool → (Bytes → ℕ → ℤ × Bytes) → ℕ → GrpcRequest → Option GrpcResponse × Option GrpcError
  unary client_limit done call duration req =
      let size = response_buffer_size client_limit req.max_response_bytes in
      if done then (none, some cancelled) else elim (new_grpc_request_payload req) [
        | err e ↦ (none, some e)
        | ok payload ↦ elim (codec.encode_request payload) [
          | none ↦ (none, some marshal)
          | some encoded ↦ read_reply size duration (call encoded size)
        ]
      ]
