-- ===== src/Lib.antt =====
-- Verification of the ServiceRadar plugin SDK for Go (sdk/).
--
-- A plugin builds a result, reads its config and inputs, makes HTTP and gRPC calls and stages
-- artifacts, all through calls of its host. On a development machine sdk/local_host.go and the
-- local_*.go files beside it are that host. The models of the client side and of the local host meet
-- in the theorems on config, results, HTTP and gRPC calls, and uploads.
--
-- The modules and the code that they model:
--   Base, Strings, Maps, Values: the shared vocabulary. A string is a list of bytes; maps are
--     association lists, whose order stands for one order of iteration; Values is Go's `any` as JSON.
--   Host: sdk/errors.go, sdk/constants.go, sdk/config.go (getConfigBytes is get_config_bytes).
--   Host.Local: sdk/local_host.go, sdk/host_calls_native.go (getConfig, log, submitResult,
--     emitTelemetry, RunLocalHost).
--   Result: the payload and builders of sdk/result.go. Result.Thresholds: ApplyThresholds.
--     Result.Execute: sdk/execute.go. Result.Execute.Reports: the report of a plugin's error.
--   Http: the types, headers, Retry-After and request JSON of sdk/http.go. Http.Client: DoContext.
--     Http.StatusBody: the response mode status_body, with its writer in sdk/local_host.go.
--     Http.Local: the HTTP call of sdk/local_host.go, with Http.Local.RoundTrip.
--     Http.JsonText: a JSON string reader, against which the request writer is proved.
--   Artifact: sdk/local_artifact.go, with the request types of sdk/artifact.go. Artifact.Keys,
--     Artifact.Laws, Artifact.Staging and Artifact.Commit hold its proofs. Artifact.Client: the
--     ArtifactStream of sdk/artifact.go on an interface of host calls, which the local host fills.
--     Artifact.Upload: an upload through it. Artifact.Handles: the end of a stream.
--   Credentials: the grants of sdk/credential_grant.go. Credentials.Spec: the spec of an OAuth2
--     exchange and its checks. Credentials.Scope, Credentials.Local: sdk/local_credentials.go
--     (applyLocalCredentialGrants). Credentials.Entries, Credentials.Form, Credentials.Injection,
--     Credentials.Safety: the proofs.
--   Rtsp: sdk/rtsp.go: Rtsp.Auth (endpoints, authorization, challenges), Rtsp.Response
--     (ParseRTSPResponse), Rtsp.Client (BuildRTSPRequest, DoRequest, Teardown), Rtsp.Sdp
--     (ParseH264TrackFromSDP), Rtsp.Interleaved (ParseInterleavedFrame), Rtsp.Packet
--     (ParseRTPPacket), Rtsp.H264 (RTSPH264Depacketizer).
--   Metric: sdk/metric_envelope.go: Metric.Encoder is its protobuf encoder, Metric.Wire a reference
--     wire format with a parser, Metric.Schema the fields of each message.
--   Manifest: sdk/manifest.go. Manifest.Rules: what its validation accepts.
--     Manifest.Semver: the grammar of versions.
--   Grpc: sdk/grpc.go. Grpc.Local: sdk/local_grpc.go. Grpc.Method, Grpc.RoundTrip: the proofs.
--   PluginInputs: sdk/plugin_inputs.go.
--   Action: sdk/action.go. Action.Outcome: its results. Action.Overrides: sdk/run_override.go.
--   Sockets: sdk/tcp.go and sdk/udp.go. Sockets.Closing: calls on a closed connection.
--   WebSocket: sdk/websocket.go.
--   LocalInputs: sdk/local_inputs.go. LocalInputs.Reading, LocalInputs.Precedence: the proofs.
--   Tests: runs on small inputs, and instances of the theorems.
--
-- Conventions. An int has 64 bits, as in the native build. A float64 is its 64 bits in Metric, and a
-- type with a test >= in Result.Thresholds. A time.Time is the nanoseconds since Go's zero time.
-- A length that the local host returns wraps to an int32 in its HTTP and gRPC calls; the artifact
-- calls bound theirs, and a config is taken to be shorter than 2^31 bytes.
-- Letters change case in ASCII only; white space is trimmed for all of Unicode. A pointer receiver's
-- method gives the changed record. The local host holds a mutex in each call that changes its state,
-- so its calls are steps on a state, in any order. encoding/json, base64, SHA-256, MD5, net/url,
-- time.Parse, http.ParseTime, strconv.Unquote, filepath.Join, the operating system and handlers
-- given by the user are parameters; theorems name what they need of them.
--
-- Fuel. itoa has 20 digits, enough for any number of 64 bits; the hexadecimal count of a Digest
-- header has the 8 digits of a uint32. The loop of an aggregation packet has
-- the length of the payload, of which each round takes at least three bytes. The reference parser has
-- the length of the message, of which each field takes at least two.
--
-- Not modelled: the ABI of the WebAssembly build (host_calls_tinygo.go, memory_tinygo.go), events of
-- sdk/result.go, the dialling of sdk/rtsp.go, cameras, telemetry, signal schemas, advisories, device
-- discovery, check descriptors and schedules.
pub mod Base
pub mod Strings
pub mod Maps
pub mod Values
pub mod Host
pub mod Result
pub mod Http
pub mod Artifact
pub mod Rtsp
pub mod Metric
pub mod Manifest
pub mod Grpc
pub mod PluginInputs
pub mod Credentials
pub mod LocalInputs
pub mod Action
pub mod Sockets
pub mod WebSocket
pub mod Tests
