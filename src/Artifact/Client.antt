-- ===== src/Artifact/Client.antt =====
-- sdk/artifact.go: ArtifactStream, the plugin's side of an upload. The host is an interface over a
-- state, which the host calls of sdk/host_calls_native.go fill with the local host. A nil stream is
-- `none`; encoding/json is a parameter.
use serviceradar_sdk_go.Base.{
  ℕ, Bool, false, [], Option, none, some, ◌==◌, if◌then◌else◌, take, ltb, Result, ok, err,
}
use serviceradar_sdk_go.Strings.{Bytes, str, ℤ, is_neg, to_ℕ}
use serviceradar_sdk_go.Host.{HostError, fine, failed, host_err, host_err_not_found}
use serviceradar_sdk_go.Artifact.{
  ArtifactOpenRequest, ArtifactWriteMetadata, ArtifactCommitRequest, ArtifactCommitResponse,
  Artifacts, Io, Codec, max_commit_response, no_metadata, artifact_open, artifact_write,
  artifact_commit, artifact_abort,
}

pub record ArtifactStream : Type 0 where
  pub handle : ℕ

-- json.Marshal of the requests and json.Unmarshal of the response; `none` is an error
pub record ClientCodec : Type 0 where
  pub encode_open : ArtifactOpenRequest → Option Bytes
  pub encode_write : ArtifactWriteMetadata → Option Bytes
  pub encode_commit : ArtifactCommitRequest → Option Bytes
  pub decode_response : Bytes → Option ArtifactCommitResponse

-- The host calls on artifacts. A commit gives what it has written into the buffer.
pub record ArtifactHost (S : Type 0) : Type 0 where
  pub host_open : Bytes → S → ℤ × S
  pub host_write : ℕ → Bytes → Bytes → S → ℤ × S
  pub host_commit : ℕ → Bytes → ℕ → S → (ℤ × Bytes) × S
  pub host_abort : ℕ → S → ℤ × S

-- `sliced` is the panic of respBuf[:res] for a length beyond the buffer.
pub data ArtifactError : Type 0 where
  cancelled not_initialized bad_json sliced : ArtifactError
  host : HostError → ArtifactError

-- callHostArtifactOpen and its fellows on the local host that is installed
abbrev pub installed_host : Codec → Io → ArtifactHost (Option Artifacts)
installed_host codec io = record {
  host_open = λ request s. elim s [
    | none ↦ (host_err_not_found, none)
    | some a ↦ (let (code, b) = artifact_open codec io request a in (code, some b))
  ];
  host_write = λ handle meta payload s. elim s [
    | none ↦ (host_err_not_found, none)
    | some a ↦ (let (code, b) = artifact_write codec io handle meta payload a in (code, some b))
  ];
  host_commit = λ handle request limit s. elim s [
    | none ↦ ((host_err_not_found, []), none)
    | some a ↦ (let (reply, b) = artifact_commit codec io handle request limit a in (reply, some b))
  ];
  host_abort = λ handle s. elim s [
    | none ↦ (host_err_not_found, none)
    | some a ↦ (let (code, b) = artifact_abort handle a in (code, some b))
  ];
}

abbrev host_error : ℤ → Bytes → ArtifactError
host_error code op = host (record { code = code; op = op })

-- ArtifactStream.Handle
abbrev pub handle_of : Option ArtifactStream → ℕ
handle_of none = 0
handle_of (some s) = s.handle

abbrev pub closed_stream : Option ArtifactStream
closed_stream = some (record { handle = 0 })

module _ (json : ClientCodec) {S : Type 0} (calls : ArtifactHost S) where
  abbrev opened : ℤ × S → Result ArtifactError ArtifactStream × S
  opened (res, s) =
      if is_neg res
      then (err (host_error res (str "artifact_open")), s)
      else (ok (record { handle = to_ℕ res }), s)

  -- OpenArtifactStreamContext
  unfoldable pub open_artifact_stream_context :
      Bool → ArtifactOpenRequest → S → Result ArtifactError ArtifactStream × S
  open_artifact_stream_context done req s =
      if done then (err cancelled, s) else elim (json.encode_open req) [
        | none ↦ (err bad_json, s)
        | some payload ↦ opened (calls.host_open payload s)
      ]

  abbrev wrote : ℤ × S → Result ArtifactError ℕ × S
  wrote (res, s) =
      if is_neg res then (err (host_error res (str "artifact_write")), s) else (ok (to_ℕ res), s)

  unfoldable pub write_chunk :
      Bool → ArtifactWriteMetadata → Bytes → Option ArtifactStream → S → Result ArtifactError ℕ × S
  write_chunk done meta payload stream s =
      if done
      then (err cancelled, s)
      else if handle_of stream == 0
      then (err not_initialized, s)
      else elim (json.encode_write meta) [
        | none ↦ (err bad_json, s)
        | some text ↦ wrote (calls.host_write (handle_of stream) text payload s)
      ]

  -- ArtifactStream.Write
  unfoldable pub write : Bytes → Option ArtifactStream → S → Result ArtifactError ℕ × S
  unfolding write_chunk
  write payload stream s = write_chunk false no_metadata payload stream s

  -- What stands behind a commit that the host has answered without an error.
  abbrev read_commit : ℕ → Bytes → Result ArtifactError ArtifactCommitResponse
  read_commit n buf =
      if ltb max_commit_response n then err sliced else elim (json.decode_response (take n buf)) [
        | none ↦ err bad_json
        | some response ↦ ok response
      ]

  abbrev pub committed :
      Option ArtifactStream
      → (ℤ × Bytes) × S
      → Result ArtifactError ArtifactCommitResponse × (Option ArtifactStream × S)
  committed stream ((res, buf), s) =
      if is_neg res
      then (err (host_error res (str "artifact_commit")), (stream, s))
      else (read_commit (to_ℕ res) buf, (closed_stream, s))

  -- The stream is returned as the call leaves it.
  unfoldable pub commit_context :
      Bool
      → ArtifactCommitRequest
      → Option ArtifactStream
      → S
      → Result ArtifactError ArtifactCommitResponse × (Option ArtifactStream × S)
  commit_context done req stream s =
      if done
      then (err cancelled, (stream, s))
      else if handle_of stream == 0
      then (err not_initialized, (stream, s))
      else elim (json.encode_commit req) [
        | none ↦ (err bad_json, (stream, s))
        | some payload ↦
            committed stream (calls.host_commit (handle_of stream) payload max_commit_response s)
      ]

  abbrev pub aborted :
      Option ArtifactStream → ℤ × S → Result ArtifactError (Unit {0}) × (Option ArtifactStream × S)
  aborted stream (res, s) = elim (host_err res (str "artifact_abort")) [
    | failed e ↦ (err (host e), (stream, s))
    | fine ↦ (ok tt, (closed_stream, s))
  ]

  unfoldable pub abort :
      Option ArtifactStream → S → Result ArtifactError (Unit {0}) × (Option ArtifactStream × S)
  abort stream s =
      if handle_of stream == 0
      then (err not_initialized, (stream, s))
      else aborted stream (calls.host_abort (handle_of stream) s)
