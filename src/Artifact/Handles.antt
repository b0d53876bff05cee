-- ===== src/Artifact/Handles.antt =====
-- sdk/artifact.go: a stream is used up by a commit or an abort.
use serviceradar_sdk_go.Base.{
  Bool, true, false, ◌≡◌, ◌⊎◌, inl, inr, refl, ap, sym, Option, ◌==◌, if◌then◌else◌, arith,
  Bool-cases, Option-cases, Result, ok, err,
}
use mathlib.Core.Path.{subst}
use serviceradar_sdk_go.Strings.{Bytes, ℤ, pos, negsuc}
use serviceradar_sdk_go.Artifact.{
  ArtifactWriteMetadata, ArtifactCommitRequest, ArtifactCommitResponse, max_commit_response,
}
use serviceradar_sdk_go.Artifact.Client.{
  ArtifactStream, ClientCodec, ArtifactHost, ArtifactError, handle_of, closed_stream, cancelled,
  not_initialized, committed, aborted, write_chunk, commit_context, abort,
}

-- The error of an operation whose context is done or not.
abbrev refusal : Bool → ArtifactError
refusal done = if done then cancelled else not_initialized

module _ (json : ClientCodec) {S : Type 0} (calls : ArtifactHost S) where
  -- Every operation on the stream is refused and does not reach the host.
  pub record IsUsedUp (stream : Option ArtifactStream) : Type 0 where
    pub refuses_write :
        (done : Bool) (meta : ArtifactWriteMetadata) (payload : Bytes) (s : S)
        → write_chunk json calls done meta payload stream s ≡ (err (refusal done), s)
    pub refuses_commit :
        (done : Bool) (r : ArtifactCommitRequest) (s : S)
        → commit_context json calls done r stream s ≡ (err (refusal done), (stream, s))
    pub refuses_abort : (s : S) → abort json calls stream s ≡ (err not_initialized, (stream, s))

  closed_stream-IsUsedUp : IsUsedUp closed_stream
  unfolding write_chunk commit_context abort
  closed_stream-IsUsedUp = record {
    refuses_write = λ done meta payload s. ground arith;
    refuses_commit = λ done r s. ground arith;
    refuses_abort = λ s. refl;
  }

  abbrev outcome :
      {A : Type 0}
      → Result ArtifactError A
      → Option ArtifactStream
      → S
      → Result ArtifactError A × (Option ArtifactStream × S)
  outcome result stream s = (result, (stream, s))

  clash :
      {A : Type 0} {x : ArtifactError} {y : A} {p q : Option ArtifactStream} {s t : S}
      → outcome (err x) p s ≡ outcome (ok y) q t
      → q ≡ closed_stream
  clash e = cc

  committed-closed :
      {response : ArtifactCommitResponse} {after : Option ArtifactStream} {t : S}
      (stream : Option ArtifactStream) (answer : (ℤ × Bytes) × S)
      → committed json calls stream answer ≡ outcome (ok response) after t
      → after ≡ closed_stream
  committed-closed stream ((pos n, buf), s) e = ap (λ x. x.1.0) (sym e)
  committed-closed stream ((negsuc n, buf), s) e = clash e

  aborted-closed :
      {after : Option ArtifactStream} {t : S} (stream : Option ArtifactStream) (answer : ℤ × S)
      → aborted json calls stream answer ≡ outcome (ok tt) after t
      → after ≡ closed_stream
  aborted-closed stream (pos n, s) e = ap (λ x. x.1.0) (sym e)
  aborted-closed stream (negsuc n, s) e = clash e

  commit_context-closed :
      {response : ArtifactCommitResponse} {after : Option ArtifactStream} {t : S} (done : Bool)
      (r : ArtifactCommitRequest) (stream : Option ArtifactStream) (s : S)
      → commit_context json calls done r stream s ≡ outcome (ok response) after t
      → after ≡ closed_stream
  unfolding commit_context
  commit_context-closed true r stream s e = clash e
  commit_context-closed false r stream s e = elim (Bool-cases (handle_of stream == 0)) [
    | inl c ↦ clash (rw c at e)
    | inr c ↦ elim (Option-cases (json.encode_commit r)) [
      | inl d ↦ clash (rw (c, d) at e)
      | inr (text, d) ↦
          committed-closed stream (calls.host_commit (handle_of stream) text max_commit_response s)
            (rw (c, d) at e)
    ]
  ]

  abort-closed :
      {after : Option ArtifactStream} {t : S} (stream : Option ArtifactStream) (s : S)
      → abort json calls stream s ≡ outcome (ok tt) after t
      → after ≡ closed_stream
  unfolding abort
  abort-closed stream s e = elim (Bool-cases (handle_of stream == 0)) [
    | inl c ↦ clash (rw c at e)
    | inr c ↦ aborted-closed stream (calls.host_abort (handle_of stream) s) (rw c at e)
  ]

  -- Whatever the host is: after a commit that returns a response, or an abort that returns no error,
  -- each write, commit and abort on the stream is refused, with the error of the context where that is
  -- done and as not initialized otherwise, and leaves the host and the stream as they are.
  pub commit_context-abort-IsUsedUp :
      (done : Bool) (r : ArtifactCommitRequest) (stream after : Option ArtifactStream)
      (response : ArtifactCommitResponse) (s t : S)
      → (commit_context json calls done r stream s ≡ outcome (ok response) after t)
        ⊎ (abort json calls stream s ≡ outcome (ok tt) after t)
      → IsUsedUp after
  commit_context-abort-IsUsedUp done r stream after response s t (inl e) =
      subst IsUsedUp (sym (commit_context-closed done r stream s e)) closed_stream-IsUsedUp
  commit_context-abort-IsUsedUp done r stream after response s t (inr e) =
      subst IsUsedUp (sym (abort-closed stream s e)) closed_stream-IsUsedUp
