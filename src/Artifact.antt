-- ===== src/Artifact.antt =====
-- sdk/local_artifact.go: artifact staging of the native development host, with the request types
-- of sdk/artifact.go. The codecs of encoding/json and the hash are parameters. A stream keeps what
-- its temporary file holds and what its hash has been fed, which differ after a failed write.
mod Types
mod Checks
pub mod Keys
pub mod Laws
pub mod Staging
pub mod Commit
pub mod Client
pub mod Upload
pub mod Handles
pub use Types.*
unfoldable pub use Checks.*
use serviceradar_sdk_go.Base.{
  ℕ, ◌+◌, ◌-◌, ◌*◌, ◌%◌, ◌^◌, Bool, true, false, not, ◌&&◌, ◌||◌, List, [], ◌∷◌, ◌++◌, Option, none,
  some, ◌==◌, if◌then◌else◌, null, length, ltb, leb, all,
}
use serviceradar_sdk_go.Strings.{
  Bytes, str, ℤ, pos, negsuc, is_neg, is_pos, eqℤ, to_ℕ, equal, has_prefix, contains, split,
  trim_space, blank, to_lower,
}
use serviceradar_sdk_go.Maps.{Dict, insert}
use serviceradar_sdk_go.Host.{
  host_err_ok, host_err_invalid, host_err_too_large, host_err_not_found, host_err_internal,
  host_err_bad_handle, max_payload_bytes,
}

-- `h.artifacts.next++` on a uint32, and `int32(handle)`
abbrev pub next_handle : Artifacts → ℕ
next_handle a = (a.next + 1) % 2 ^ 32

abbrev pub int32 : ℕ → ℤ
int32 n = if ltb n (2 ^ 31) then pos n else negsuc (2 ^ 32 - 1 - n)

abbrev fresh_stream : ArtifactOpenRequest → Stream
fresh_stream request = record {
  request = request;
  file = [];
  hashed = [];
  size = 0;
  next_index = 0;
}

-- `delete(h.artifacts.open, handle)`
unfoldable pub forget : ℕ → List (ℕ × Stream) → List (ℕ × Stream)
forget h [] = []
forget h ((k, s) ∷ rest) = let kept = forget h rest in if k == h then kept else (k, s) ∷ kept

-- The code under the lock.
unfoldable pub open_stream : Io → ArtifactOpenRequest → Artifacts → ℤ × Artifacts
open_stream io request a =
    if leb max_open_streams (length a.open_streams)
    then (host_err_too_large, a)
    else if io.mkdir_fails
    then (host_err_internal, a)
    else if io.create_fails
    then (host_err_internal, a)
    else (
      int32 (next_handle a),
      record a {
        next = next_handle a;
        open_streams =
            (next_handle a, fresh_stream request) ∷ forget (next_handle a) a.open_streams;
      },
    )

-- An encoding with its code; a failure is a code alone.
unfoldable encoded_response : Option Bytes → ℕ → ℤ × Bytes
encoded_response none limit = (host_err_internal, [])
encoded_response (some payload) limit =
    if ltb limit (length payload) then (host_err_too_large, []) else (host_err_ok, payload)

module _ (codec : Codec) where
  unfoldable pub commit_response : ArtifactOpenRequest → Bytes → ℕ → ArtifactCommitResponse
  commit_response request sha size = record {
    object_key = request.object_key;
    content_type = request.content_type;
    sha256 = sha;
    size_bytes = size;
    attributes = request.attributes;
  }

  unfoldable pub encode_local_commit_response : ArtifactOpenRequest → Bytes → ℕ → ℕ → ℤ × Bytes
  unfolding encoded_response commit_response
  encode_local_commit_response request sha size limit =
      encoded_response (codec.encode_response (commit_response request sha size)) limit

  -- The checks on a decoded request, the probe with a digest of 64 letters and the largest size
  -- included; a code below 0 is returned to the plugin.
  unfoldable pub check_request : ArtifactOpenRequest → ℤ
  check_request request =
      let probe = encode_local_commit_response request probe_sha (2 ^ 63 - 1) max_commit_response in
      if not (valid_local_artifact_key request.object_key)
      then host_err_invalid
      else if not (null request.sha256) && not (valid_local_sha256 request.sha256)
      then host_err_invalid
      else if is_neg request.size_bytes
      then host_err_invalid
      else probe.0

  unfoldable open_checked : Io → Artifacts → ArtifactOpenRequest → ℤ × Artifacts
  open_checked io a request =
      if eqℤ (check_request request) host_err_ok
      then open_stream io request a
      else (check_request request, a)

  unfoldable open_decoded : Io → Artifacts → Option ArtifactOpenRequest → ℤ × Artifacts
  unfolding open_checked
  open_decoded io a none = (host_err_invalid, a)
  open_decoded io a (some request) = open_checked io a (normalized request)

  unfoldable pub artifact_open : Io → Bytes → Artifacts → ℤ × Artifacts
  unfolding open_decoded open_checked
  artifact_open io encoded a =
      if blank a.dir
      then (host_err_not_found, a)
      else if null encoded
      then (host_err_invalid, a)
      else if ltb max_payload_bytes (length encoded)
      then (host_err_too_large, a)
      else open_decoded io a (codec.decode_open encoded)

-- `h.artifacts.open[handle]`, and the map with another stream for that handle
unfoldable pub find : ℕ → List (ℕ × Stream) → Option Stream
find h [] = none
find h ((k, s) ∷ rest) = if k == h then some s else find h rest

unfoldable pub replace : ℕ → Stream → List (ℕ × Stream) → List (ℕ × Stream)
replace h s [] = []
replace h s ((k, t) ∷ rest) = (k, if k == h then s else t) ∷ replace h s rest

abbrev put_stream : ℕ → Stream → Artifacts → Artifacts
put_stream h s a = record a { open_streams = replace h s a.open_streams }

-- A stream that has been found takes the payload.
unfoldable pub write_stream :
    Io → ℕ → ArtifactWriteMetadata → Bytes → Artifacts → Stream → ℤ × Artifacts
write_stream io handle meta payload a s =
    let size = s.size + length payload in
    let grown = record s {
      file = s.file ++ payload;
      hashed = s.hashed ++ payload;
      size = size;
      next_index = s.next_index + 1;
    } in
    let limit = s.request.size_bytes in
    if is_pos meta.index && not (to_ℕ meta.index == s.next_index)
    then (host_err_invalid, a)
    else elim io.write_fails [
      | some part ↦ (host_err_internal, put_stream handle (record s { file = s.file ++ part }) a)
      | none ↦
          if is_pos limit && ltb (to_ℕ limit) size
          then (host_err_invalid, put_stream handle grown a)
          else (pos (length payload), put_stream handle grown a)
    ]

unfoldable pub no_metadata : ArtifactWriteMetadata
no_metadata = record { index = pos 0; final = false }

module _ (codec : Codec) where
  unfoldable write_found :
      Io → ℕ → Bytes → Artifacts → Option Stream → Option ArtifactWriteMetadata → ℤ × Artifacts
  write_found io handle payload a s none = (host_err_invalid, a)
  write_found io handle payload a none (some meta) = (host_err_bad_handle, a)
  write_found io handle payload a (some s) (some meta) = write_stream io handle meta payload a s

  unfoldable pub artifact_write : Io → ℕ → Bytes → Bytes → Artifacts → ℤ × Artifacts
  unfolding write_found no_metadata
  artifact_write io handle meta payload a =
      let decoded = if null meta then some no_metadata else codec.decode_write meta in
      if null payload
      then (host_err_invalid, a)
      else if ltb max_payload_bytes (length payload)
      then (host_err_too_large, a)
      else write_found io handle payload a (find handle a.open_streams) decoded

-- The digest and the size that a commit must meet: its own where it gives some, else those of the
-- request that opened the stream.
unfoldable pub verify : Stream → ArtifactCommitRequest → Bytes → ℤ
verify s request actual =
    let given = to_lower (trim_space request.sha256) in
    let expected_sha = if null given then s.request.sha256 else given in
    let expected_size =
      if is_pos request.size_bytes then request.size_bytes else s.request.size_bytes in
    if not (null expected_sha) && not (equal expected_sha actual)
    then host_err_invalid
    else if is_pos expected_size && not (to_ℕ expected_size == s.size)
    then host_err_invalid
    else host_err_ok

module _ (codec : Codec) where
  abbrev pub target : Artifacts → Bytes → Bytes
  target a key = codec.join a.dir key

  -- The artifact that is recorded for a stream.
  abbrev pub published : Artifacts → Stream → LocalHostArtifact
  published a s = record {
    object_key = s.request.object_key;
    path = target a s.request.object_key;
    content_type = s.request.content_type;
    sha256 = codec.sum s.hashed;
    size_bytes = s.size;
    attributes = s.request.attributes;
  }

  abbrev pub put_published : Artifacts → Stream → Artifacts
  put_published a s = record a {
    committed = a.committed ++ (published a s ∷ []);
    files = insert (target a s.request.object_key) s.file a.files;
  }

  -- The stream has left the map. `limit` is the length of the response buffer.
  unfoldable pub commit_stream :
      Io → ArtifactCommitRequest → ℕ → Stream → Artifacts → (ℤ × Bytes) × Artifacts
  commit_stream io request limit s a =
      let sha = codec.sum s.hashed in
      let response = encode_local_commit_response codec s.request sha s.size limit in
      if not (eqℤ (verify s request sha) host_err_ok)
      then ((verify s request sha, []), a)
      else if io.close_fails
      then ((host_err_internal, []), a)
      else if not (eqℤ response.0 host_err_ok)
      then ((response.0, []), a)
      else if io.publish_fails
      then ((host_err_internal, []), a)
      else ((pos (length response.1), response.1), put_published a s)

  unfoldable commit_found :
      Io
      → ℕ
      → ℕ
      → Artifacts
      → Option Stream
      → Option ArtifactCommitRequest
      → (ℤ × Bytes) × Artifacts
  commit_found io handle limit a s none = ((host_err_invalid, []), a)
  commit_found io handle limit a none (some request) = ((host_err_bad_handle, []), a)
  commit_found io handle limit a (some s) (some request) =
      commit_stream io request limit s (record a { open_streams = forget handle a.open_streams })

  -- A commit without a request asks for nothing.
  abbrev pub commit_request : Bytes → Option ArtifactCommitRequest
  commit_request encoded =
      if null encoded
      then some (record { sha256 = []; size_bytes = pos 0 })
      else codec.decode_commit encoded

  unfoldable pub artifact_commit : Io → ℕ → Bytes → ℕ → Artifacts → (ℤ × Bytes) × Artifacts
  unfolding commit_found
  artifact_commit io handle encoded limit a =
      commit_found io handle limit a (find handle a.open_streams) (commit_request encoded)

unfoldable abort_found : ℕ → Artifacts → Option Stream → ℤ × Artifacts
abort_found handle a none = (host_err_bad_handle, a)
abort_found handle a (some s) =
    (host_err_ok, record a { open_streams = forget handle a.open_streams })

unfoldable pub artifact_abort : ℕ → Artifacts → ℤ × Artifacts
unfolding abort_found
artifact_abort handle a = abort_found handle a (find handle a.open_streams)

-- abortOpenArtifacts discards every open stream.
unfoldable pub abort_open_artifacts : Artifacts → Artifacts
abort_open_artifacts a = record a { open_streams = [] }
