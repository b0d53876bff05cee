-- ===== src/Artifact/Upload.antt =====
-- An upload: a plugin opens a stream, writes its content in chunks, and commits, all through the
-- ArtifactStream of sdk/artifact.go on the staging of sdk/local_artifact.go.
pub mod HostSteps
use serviceradar_sdk_go.Base.{
  ℕ, suc, ◌+◌, ◌-◌, ◌^◌, ◌%◌, ◌<◌, ◌≤◌, Bool, true, false, not, ◌&&◌, List, [], ◌∷◌, ◌++◌, ◌≡◌,
  refl, sym, ap, ◌∙◌, ◌⊎◌, inl, inr, Option, none, some, ◌==◌, if◌then◌else◌, null, length, leb,
  ltb, take, take-length, All, arith, length-append, append_assoc, append-nil, Bool-cases, Result,
  ok, err,
}
use serviceradar_sdk_go.Strings.{
  Bytes, str, ℤ, pos, is_pos, eqℤ, to_ℕ, equal, equal_iff, equal_refl, blank, trim_space, to_lower,
}
use serviceradar_sdk_go.Maps.{lookup, insert, lookup-insert}
use serviceradar_sdk_go.Host.{host_err_ok, max_payload_bytes}
use serviceradar_sdk_go.Artifact.{
  ArtifactOpenRequest, ArtifactWriteMetadata, ArtifactCommitRequest, ArtifactCommitResponse,
  Artifacts, Io, Codec, Stream, max_commit_response, max_open_streams, no_metadata, normalized,
  check_request, next_handle, forget, find, replace, fresh_stream, int32, open_stream, open_checked,
  open_decoded, artifact_open, write_stream, write_found, artifact_write, verify, commit_response,
  encode_local_commit_response, encoded_response, commit_stream, commit_found, artifact_commit,
  published, put_published,
}
use serviceradar_sdk_go.Artifact.Commit.{wanted_digest, wanted_size}
use serviceradar_sdk_go.Artifact.Client.{
  ArtifactStream, ClientCodec, ArtifactHost, ArtifactError, installed_host, closed_stream,
  open_artifact_stream_context, write, write_chunk, commit_context,
}
use serviceradar_sdk_go.Artifact.Upload.HostSteps.{
  quiet, filled, handed_out, with_stream, artifact_open_lem, write_lem, commit_lem, verify_lem,
}

-- A plugin's upload: it gives up at the first error.
module _ (json : ClientCodec) {S : Type 0} (calls : ArtifactHost S) where
  abbrev continue :
      (S → Result ArtifactError (Unit {0}) × S)
      → Result ArtifactError ℕ × S
      → Result ArtifactError (Unit {0}) × S
  continue rest (err e, s) = (err e, s)
  continue rest (ok n, s) = rest s

  unfoldable pub write_all :
      List Bytes → Option ArtifactStream → S → Result ArtifactError (Unit {0}) × S
  write_all [] stream s = (ok tt, s)
  write_all (chunk ∷ chunks) stream s =
      continue (λ t. write_all chunks stream t) (write json calls chunk stream s)

  abbrev pub Uploaded : Type 0
  Uploaded = Result ArtifactError ArtifactCommitResponse × (Option ArtifactStream × S)

  abbrev finish :
      ArtifactCommitRequest → Option ArtifactStream → Result ArtifactError (Unit {0}) × S → Uploaded
  finish r stream (err e, s) = (err e, (stream, s))
  finish r stream (ok u, s) = commit_context json calls false r stream s

  abbrev fill :
      List Bytes → ArtifactCommitRequest → Result ArtifactError ArtifactStream × S → Uploaded
  fill chunks r (err e, s) = (err e, (none, s))
  fill chunks r (ok stream, s) = finish r (some stream) (write_all chunks (some stream) s)

  unfoldable pub upload : ArtifactOpenRequest → List Bytes → ArtifactCommitRequest → S → Uploaded
  upload req chunks r s = fill chunks r (open_artifact_stream_context json calls false req s)

unfoldable pub concat : List Bytes → Bytes
concat [] = []
concat (c ∷ cs) = c ++ concat cs

-- A chunk that the host takes in one write.
abbrev pub IsChunk : Bytes → Type 0
IsChunk c = (null c ≡ false) × (length c ≤ max_payload_bytes)

-- The host can take the stream.
pub record HasRoom (a : Artifacts) : Type 0 where
  pub dir_given : blank a.dir ≡ false
  pub few : length a.open_streams < max_open_streams
  pub handles_left : a.next + 1 < 2 ^ 31

module _ (codec : Codec) (json : ClientCodec) where
  -- The host reads what the plugin has written.
  pub record Agrees (req : ArtifactOpenRequest) (r : ArtifactCommitRequest)
      (opening meta closing : Bytes) : Type 0 where
    pub opening_sent : json.encode_open req ≡ some opening
    pub opening_read : codec.decode_open opening ≡ some req
    pub opening_given : null opening ≡ false
    pub opening_short : length opening ≤ max_payload_bytes
    pub meta_sent : json.encode_write no_metadata ≡ some meta
    pub meta_read : codec.decode_write meta ≡ some no_metadata
    pub meta_given : null meta ≡ false
    pub closing_sent : json.encode_commit r ≡ some closing
    pub closing_read : codec.decode_commit closing ≡ some r
    pub closing_given : null closing ≡ false

  -- What the requests ask for fits the content, and the response fits the buffer.
  pub record IsWanted (q : ArtifactOpenRequest) (r : ArtifactCommitRequest) (content : Bytes)
      (n : ℕ) (payload : Bytes) : Type 0 where
    pub bounded : is_pos q.size_bytes ≡ true → length content ≤ to_ℕ q.size_bytes
    pub digest :
        (wanted_digest (filled q content n) r ≡ [])
        ⊎ (wanted_digest (filled q content n) r ≡ codec.sum content)
    pub size :
        is_pos (wanted_size (filled q content n) r) ≡ true
        → to_ℕ (wanted_size (filled q content n) r) ≡ length content
    pub answered :
        codec.encode_response (commit_response codec q (codec.sum content) (length content))
        ≡ some payload
    pub answer_fits : length payload ≤ max_commit_response
    pub answer_read :
        json.decode_response payload
        ≡ some (commit_response codec q (codec.sum content) (length content))

  abbrev calls : ArtifactHost (Option Artifacts)
  calls = installed_host codec quiet

  module _ (a : Artifacts) (req : ArtifactOpenRequest) (r : ArtifactCommitRequest)
      (opening meta closing : Bytes) (agrees : Agrees req r opening meta closing)
      (room : HasRoom a) where
    abbrev open_handle : Option ArtifactStream
    open_handle = some (record { handle = next_handle a })

    handle_positive : (next_handle a == 0) ≡ false
    handle_positive = ground (arith, room.handles_left)

    write_step :
        (q : ArtifactOpenRequest) (content chunk : Bytes) (n : ℕ)
        → IsChunk chunk
        → (is_pos q.size_bytes ≡ true → length (content ++ chunk) ≤ to_ℕ q.size_bytes)
        → write json calls chunk open_handle (some (with_stream (filled q content n) a))
          ≡ (ok (length chunk), some (with_stream (filled q (content ++ chunk) (n + 1)) a))
    unfolding write write_chunk
    write_step q content chunk n (given, short) bound =
        rw
          (
            handle_positive,
            agrees.meta_sent,
            write_lem codec q content chunk meta n a given short agrees.meta_given agrees.meta_read
                bound,
          )
          refl

    write_all_lem :
        (q : ArtifactOpenRequest) (content : Bytes) (chunks : List Bytes) (n : ℕ)
        → All IsChunk chunks
        → (is_pos q.size_bytes ≡ true → length (content ++ concat chunks) ≤ to_ℕ q.size_bytes)
        → write_all json calls chunks open_handle (some (with_stream (filled q content n) a))
          ≡ (ok tt, some (with_stream (filled q (content ++ concat chunks) (n + length chunks)) a))
    unfolding write_all concat
    write_all_lem q content [] n given bound =
        let e : n + 0 ≡ n = omega arith in rw (append-nil content, e) refl
    write_all_lem q content (c ∷ chunks) n (g, given) bound =
        let whole : content ++ (c ++ concat chunks) ≡ (content ++ c) ++ concat chunks =
          sym (append_assoc content c (concat chunks)) in
        let bound' : is_pos q.size_bytes ≡ true
            → length ((content ++ c) ++ concat chunks) ≤ to_ℕ q.size_bytes =
          rw whole at bound in
        let part : length ((content ++ c) ++ concat chunks)
            ≡ length (content ++ c) + length (concat chunks) =
          length-append (content ++ c) (concat chunks) in
        let count : n + suc (length chunks) ≡ (n + 1) + length chunks = omega arith in
        rw
          (
            write_all,
            write_step q content c n g (λ p. omega (arith, bound' p, part)),
            write_all_lem q (content ++ c) chunks (n + 1) given bound',
            whole,
            count,
          )
          refl

    -- An upload that the host has room for, whose requests the host reads as they were written and
    -- accepts, whose chunks are neither empty nor too long, and whose content has the digest and
    -- size that the requests ask for, succeeds on an operating system without failures: the plugin
    -- gets the response for its content and a closed stream, and the host, which has handed out one
    -- handle, has published the chunks one after the other, as the last of its committed artifacts
    -- and as the file at its path.
    pub upload-succeeds :
        (chunks : List Bytes) (payload : Bytes)
        → check_request codec (normalized req) ≡ host_err_ok
        → All IsChunk chunks
        → IsWanted (normalized req) r (concat chunks) (length chunks) payload
        → let s = filled (normalized req) (concat chunks) (length chunks) in
          (upload json calls req chunks r (some a) ≡ (
            ok (commit_response codec (normalized req) (codec.sum s.file) (length s.file)),
            (closed_stream, some (put_published codec (handed_out a) s)),
          ))
          × (lookup (published codec a s).path (put_published codec (handed_out a) s).files
              ≡ some (concat chunks))
    unfolding upload open_artifact_stream_context commit_context
    upload-succeeds chunks payload accepted given wanted =
        let q = normalized req in
        let v =
          verify_lem codec (filled q (concat chunks) (length chunks)) r _ wanted.digest
            wanted.size in
        let f : ltb max_commit_response (length payload) ≡ false =
          ground (arith, wanted.answer_fits) in
        let zero_add : 0 + length chunks ≡ length chunks = omega arith in
        let written : write_all json calls chunks open_handle (some (with_stream (filled q [] 0) a))
            ≡ (ok tt, some (with_stream (filled q (concat chunks) (length chunks)) a)) =
          rw zero_add at (write_all_lem q [] chunks 0 given wanted.bounded) in
        (
          rw
              (
                agrees.opening_sent,
                artifact_open_lem codec opening req a room.dir_given agrees.opening_given
                    agrees.opening_short agrees.opening_read accepted room.few room.handles_left,
                written,
                handle_positive,
                agrees.closing_sent,
                commit_context,
                commit_lem codec q (concat chunks) closing payload (length chunks) a r
                    agrees.closing_given agrees.closing_read v wanted.answered wanted.answer_fits,
                f,
                take-length payload,
                wanted.answer_read,
              )
              refl,
          rw (lookup-insert, equal_refl) refl,
        )
