-- ===== src/Tests/Calls.antt =====
-- sdk/grpc.go and sdk/local_grpc.go on a small call.
use serviceradar_sdk_go.Base.{
  true, false, [], ◌∷◌, ◌++◌, ◌≡◌, ◌↔◌, refl, inl, none, some, arith, ok,
}
use serviceradar_sdk_go.Strings.{
  blank, Bytes, str, pos, equal, cut, contains, has_prefix, to_lower, trim_space,
}
use serviceradar_sdk_go.Maps.{lookup, insert}
use serviceradar_sdk_go.Grpc.{
  Codec, GrpcRequest, GrpcResponse, valid_grpc_method, new_grpc_request_payload, grpc_payload,
  status, unary, response_buffer_size, response_limit,
}
use serviceradar_sdk_go.Grpc.Local.{
  responded, grpc_unary, local_limit, normalize_local_grpc_metadata, normalize_from,
}
use serviceradar_sdk_go.Grpc.Method.{
  IsPart, valid_grpc_method_iff, IsValid, new_grpc_request_payload_iff, trimmed_payload,
}
use serviceradar_sdk_go.Grpc.RoundTrip.{IsPlain, unary-grpc_unary}

valid_grpc_method_iff_example : (valid_grpc_method (str "/a.B/C") ≡ true) ↔ (
    (service : Bytes) × (name : Bytes) × (str "/a.B/C" ≡ str "/" ++ (service ++ (str "/" ++ name)))
    × IsPart service
    × IsPart name)
valid_grpc_method_iff_example = valid_grpc_method_iff (str "/a.B/C")

abbrev request : GrpcRequest
request = record {
  target_host = str "h";
  target_port = pos 50051;
  authority = [];
  method = str "/a.B/C";
  metadata = (str "x-id", str "1") ∷ [];
  message = 1 ∷ 2 ∷ [];
  timeout_ms = pos 0;
  transport = str "tls";
  tls = none;
  max_response_bytes = pos 0;
}

abbrev response : GrpcResponse
response = record {
  status = pos 5;
  status_message = str "gone";
  headers = [];
  trailers = [];
  message = [];
  duration = 0;
}

-- Codecs that know this request and this response; base64 is the identity.
abbrev codec : Codec
codec = record {
  encode_request = λ p. some (str "q");
  decode_request = λ b. some (record {
    target_host = str "h";
    target_port = pos 50051;
    authority = [];
    method = str "/a.B/C";
    metadata = (str "x-id", str "1") ∷ [];
    message_base64 = 1 ∷ 2 ∷ [];
    timeout_ms = pos 0;
    transport = str "tls";
    tls = none;
    max_response_bytes = pos 0;
  });
  encode_response = λ p. some (str "r");
  decode_response = λ b. some (record {
    grpc_status = pos 5;
    grpc_message = str "gone";
    headers = [];
    trailers = [];
    message_base64 = [];
  });
  encode64 = λ b. b;
  decode64 = λ b. some b;
}

new_grpc_request_payload_iff_example :
    (new_grpc_request_payload codec request ≡ ok (trimmed_payload codec request))
    ↔ (IsValid request × (trimmed_payload codec request ≡ trimmed_payload codec request))
new_grpc_request_payload_iff_example =
    new_grpc_request_payload_iff codec request (trimmed_payload codec request)

request-IsPlain : IsPlain request
unfolding trim_space
request-IsPlain = record {
  host_trimmed = refl;
  authority_trimmed = refl;
  method_trimmed = refl;
  transport_given = inl refl;
  timeout_rule = refl;
  limit_rule = refl;
}

request-IsValid : IsValid request
unfolding trim_space to_lower valid_grpc_method cut contains has_prefix blank
request-IsValid = record {
  host_rule = λ e. cc;
  port_positive = ground arith;
  port_bound = ground arith;
  method_rule = (str "a.B", str "C", refl, (refl, refl), (refl, refl));
  transport_rule = inl refl;
}

decoded_lem : codec.decode_request (str "q") ≡ some (grpc_payload codec request)
unfolding grpc_payload trim_space to_lower
decoded_lem = refl

metadata_lem : normalize_local_grpc_metadata codec request.metadata ≡ some request.metadata
unfolding normalize_local_grpc_metadata normalize_from trim_space to_lower equal has_prefix lookup
    insert
metadata_lem = refl

unary-grpc_unary_example :
    unary codec 0 false (grpc_unary codec (some (λ timeout req. responded response))) 9 request ≡ (
      some (record response { duration = 9 }),
      some (status (record { code = pos 5; message = str "gone"; trailers = [] })),
    )
unary-grpc_unary_example =
    unary-grpc_unary codec (λ x. refl) 0 9 (λ timeout req. responded response) request
      request.metadata (str "q") (str "r") response request-IsPlain request-IsValid refl decoded_lem
      metadata_lem refl (unfold local_limit in ground arith) refl refl
      (unfold response_buffer_size response_limit in ground arith)
      (unfold response_buffer_size response_limit in ground arith) (ground arith)
