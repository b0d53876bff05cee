-- ===== src/Grpc/Method.antt =====
-- What makes a method path and a request to a gRPC server valid.
use serviceradar_sdk_go.Base.{
  ◌≤◌, true, false, [], ◌∷◌, ◌++◌, ◌≡◌, ◌≢◌, ◌↔◌, ◌⊎◌, refl, null, arith, length-append, ap, ok,
  if◌then◌else◌,
}
use serviceradar_sdk_go.Strings.{
  blank, to_lower, Bytes, str, ℤ, to_ℕ, equal_iff, has_prefix, contains, cut, trim_space,
}
use serviceradar_sdk_go.Grpc.{
  Codec, GrpcRequest, GrpcRequestPayload, valid_grpc_method, new_grpc_request_payload, grpc_payload,
  default_transport, known_transport, port_in_range, transport_tls, transport_h2c,
}

abbrev slash : Bytes
slash = str "/"

-- A part of a method path: a text that is not empty and holds no slash.
abbrev pub IsPart : Bytes → Type 0
IsPart part = (null part ≡ false) × (contains part (str "/") ≡ false)

cut-parts :
    (service name : Bytes)
    → contains service (str "/") ≡ false
    → cut (service ++ (str "/" ++ name)) (str "/") ≡ (service, name, true)
unfolding cut contains has_prefix
cut-parts [] name h = refl
cut-parts (c ∷ service) name h = ground (arith, cut-parts service name)

cut_found :
    (s : Bytes)
    → (cut s (str "/")).2 ≡ true
    → (s ≡ (cut s (str "/")).0 ++ (str "/" ++ (cut s (str "/")).1))
      × (contains (cut s (str "/")).0 (str "/") ≡ false)
unfolding cut contains has_prefix
cut_found [] e = ground arith
cut_found (c ∷ s) e = ground (arith, cut_found s)

valid-parts :
    (method : Bytes)
    → valid_grpc_method method ≡ true
    → (service : Bytes) × (name : Bytes) × (method ≡ str "/" ++ (service ++ (str "/" ++ name)))
      × IsPart service
      × IsPart name
unfolding valid_grpc_method
valid-parts [] e = cc
valid-parts (c ∷ rest) e =
    let found = cut_found rest (ground arith) in
    let slashed : c ≡ b'/' = ground arith in
    (
      (cut rest slash).0,
      (cut rest slash).1,
      rw slashed (ap (λ t. b'/' ∷ t) found.0),
      (ground arith, found.1),
      (ground arith, ground arith),
    )

parts-valid :
    (service name : Bytes)
    → IsPart service
    → IsPart name
    → valid_grpc_method (str "/" ++ (service ++ (str "/" ++ name))) ≡ true
unfolding valid_grpc_method
parts-valid [] name p q = ground arith
parts-valid (s ∷ service) [] p q = ground arith
parts-valid (s ∷ service) (n ∷ name) p q =
    ground
      (arith, length-append service (str "/" ++ (n ∷ name)), cut-parts (s ∷ service) (n ∷ name) p.1)

-- A method path is accepted exactly if it is a slash, a service, a slash and a name, where neither
-- the service nor the name is empty or holds a slash.
pub valid_grpc_method_iff :
    (method : Bytes)
    → (valid_grpc_method method ≡ true) ↔ (
        (service : Bytes) × (name : Bytes) × (method ≡ str "/" ++ (service ++ (str "/" ++ name)))
        × IsPart service
        × IsPart name)
valid_grpc_method_iff method =
    (valid-parts method, (λ (service, name, e, p, q). rw e (parts-valid service name p q)))

null_iff : (xs : Bytes) → (null xs ≡ false) ↔ (xs ≢ [])
null_iff [] = ground arith
null_iff (x ∷ xs) = ground arith

known_transport_iff :
    (t : Bytes) → (known_transport t ≡ true) ↔ ((t ≡ transport_tls) ⊎ (t ≡ transport_h2c))
known_transport_iff t = ground (arith, equal_iff t transport_tls, equal_iff t transport_h2c)

port_in_range_iff : (p : ℤ) → (port_in_range p ≡ true) ↔ ((1 ≤ to_ℕ p) × (to_ℕ p ≤ 65535))
port_in_range_iff p = ground arith

-- The transport that a text names: tls where it is blank, and in lower case without the spaces around
-- it otherwise.
abbrev pub given_transport : Bytes → Bytes
given_transport t = if blank t then str "tls" else to_lower (trim_space t)

null-to_lower : (s : Bytes) → null (to_lower s) ≡ null s
unfolding to_lower
null-to_lower [] = refl
null-to_lower (c ∷ s) = refl

default_transport_lem : (t : Bytes) → default_transport t ≡ given_transport t
unfolding blank
default_transport_lem t = rw (null-to_lower (trim_space t)) refl

-- A method path: a slash, a service, a slash and a name
abbrev pub IsMethod : Bytes → Type 0
IsMethod method =
    (service : Bytes) × (name : Bytes) × (method ≡ str "/" ++ (service ++ (str "/" ++ name)))
    × IsPart service
    × IsPart name

-- What a request must meet: a host that is not blank, a port between 1 and 65535, a valid method,
-- and a transport that is empty, tls or h2c in letters of either case.
pub record IsValid (req : GrpcRequest) : Type 0 where
  pub host_rule : trim_space req.target_host ≢ []
  pub port_positive : 1 ≤ to_ℕ req.target_port
  pub port_bound : to_ℕ req.target_port ≤ 65535
  pub method_rule : IsMethod (trim_space req.method)
  pub transport_rule :
      (given_transport req.transport ≡ transport_tls)
      ⊎ (given_transport req.transport ≡ transport_h2c)

module _ (codec : Codec) where
  abbrev pub trimmed_payload : GrpcRequest → GrpcRequestPayload
  trimmed_payload req = record {
    target_host = trim_space req.target_host;
    target_port = req.target_port;
    authority = trim_space req.authority;
    method = trim_space req.method;
    metadata = req.metadata;
    message_base64 = codec.encode64 req.message;
    timeout_ms = req.timeout_ms;
    transport = given_transport req.transport;
    tls = req.tls;
    max_response_bytes = req.max_response_bytes;
  }

  pub grpc_payload_lem : (req : GrpcRequest) → grpc_payload codec req ≡ trimmed_payload req
  unfolding grpc_payload
  grpc_payload_lem req = rw (default_transport_lem req.transport) refl

  -- A payload is built exactly for a request that meets every rule (a host that is not blank, a port
  -- from 1 to 65535, a method path of a service and a name, and a transport that is blank, tls or
  -- h2c): it then has the host, the
  -- authority and the method without the spaces around them, the message in base64, the transport
  -- in lower case or tls for a blank one, and the other fields as they are.
  pub new_grpc_request_payload_iff :
      (req : GrpcRequest) (payload : GrpcRequestPayload)
      → (new_grpc_request_payload codec req ≡ ok payload)
        ↔ (IsValid req × (payload ≡ trimmed_payload req))
  unfolding new_grpc_request_payload
  new_grpc_request_payload_iff req payload =
      rw (grpc_payload_lem req, default_transport_lem req.transport)
        (let n = null_iff (trim_space req.target_host) in
          let m = valid_grpc_method_iff (trim_space req.method) in
          let p = port_in_range_iff req.target_port in
          let t = known_transport_iff (given_transport req.transport) in
          (
            (λ e. (
              record {
                host_rule = n.0 (ground arith);
                port_positive = (p.0 (ground arith)).0;
                port_bound = (p.0 (ground arith)).1;
                method_rule = m.0 (ground arith);
                transport_rule = t.0 (ground arith);
              },
              ground arith,
            )),
            (λ (v, q).
                rw
                  (
                    n.1 v.host_rule,
                    p.1 (v.port_positive, v.port_bound),
                    m.1 v.method_rule,
                    t.1 v.transport_rule,
                    q,
                  )
                  refl),
          ))
