-- ===== src/Artifact/Commit.antt =====
-- What a commit that succeeds has published.
use serviceradar_sdk_go.Base.{
  ℕ, [], ◌∷◌, ◌++◌, ◌≡◌, refl, sym, ap, ◌∙◌, Option, none, some, length, arith, ltb, true, false,
  not, ◌&&◌, null, if◌then◌else◌, Bool-cases, ◌⊎◌, inl, inr,
}
use mathlib.Core.Path.{subst}
use serviceradar_sdk_go.Strings.{
  Bytes, equal, equal_iff, equal_refl, ℤ, pos, negsuc, is_pos, to_ℕ, to_lower, trim_space,
}
use serviceradar_sdk_go.Maps.{lookup, lookup-insert}
use serviceradar_sdk_go.Host.{host_err_ok, host_err_invalid}
use serviceradar_sdk_go.Artifact.{
  ArtifactOpenRequest, ArtifactCommitRequest, Artifacts, Io, Codec, Stream, find, forget, verify,
  published, put_published, encode_local_commit_response, encoded_response, commit_stream,
  commit_found, commit_request, artifact_commit,
}
use serviceradar_sdk_go.Artifact.Laws.{IsValid, IsSound, find-IsSound}

abbrev pub reply : ℤ → Bytes → Artifacts → (ℤ × Bytes) × Artifacts
reply code payload a = ((code, payload), a)

code-clash :
    {k n : ℕ} {x y : Bytes} {a b : Artifacts} → reply (negsuc k) x a ≡ reply (pos n) y b → ⊥
code-clash e = cc

-- The digest that the commit asks for, or else the request that opened the stream; empty for none.
abbrev pub wanted_digest : Stream → ArtifactCommitRequest → Bytes
wanted_digest s r =
    let given = to_lower (trim_space r.sha256) in if null given then s.request.sha256 else given

-- The size that is asked for, where it is positive.
abbrev pub wanted_size : Stream → ArtifactCommitRequest → ℤ
wanted_size s r = if is_pos r.size_bytes then r.size_bytes else s.request.size_bytes

verify-asked :
    (s : Stream) (r : ArtifactCommitRequest) (actual : Bytes)
    → verify s r actual ≡ host_err_ok
    → ((wanted_digest s r ≡ []) ⊎ (wanted_digest s r ≡ actual))
      × (is_pos (wanted_size s r) ≡ true → to_ℕ (wanted_size s r) ≡ s.size)
unfolding verify
verify-asked s r actual e = (asked (wanted_digest s r) (ground arith), (λ p. ground arith))
  where
    asked : (x : Bytes) → (not (null x) && not (equal x actual)) ≡ false → (x ≡ []) ⊎ (x ≡ actual)
    asked [] h = inl refl
    asked (c ∷ x) h = ground (arith, equal_iff (c ∷ x) actual)

module _ (codec : Codec) where
  -- A stream has been published: its digest and size are those that were asked for, its entry is the
  -- last of the committed ones, the file at the entry's path is its content, whose digest and length
  -- the entry has, and the payload is the entry's response and fits the buffer.
  pub record IsPublished (a b : Artifacts) (s : Stream) (r : ArtifactCommitRequest) (limit n : ℕ)
      (payload : Bytes) : Type 0 where
    pub asked_digest : (wanted_digest s r ≡ []) ⊎ (wanted_digest s r ≡ codec.sum s.file)
    pub asked_size : is_pos (wanted_size s r) ≡ true → to_ℕ (wanted_size s r) ≡ length s.file
    pub recorded : b.committed ≡ a.committed ++ (published codec a s ∷ [])
    pub content : lookup (published codec a s).path b.files ≡ some s.file
    pub digest : (published codec a s).sha256 ≡ codec.sum s.file
    pub counted : (published codec a s).size_bytes ≡ length s.file
    pub response :
        encode_local_commit_response codec s.request (codec.sum s.file) (length s.file) limit
        ≡ (host_err_ok, payload)
    pub closed : b.open_streams ≡ a.open_streams
    pub fits : n ≡ length payload

  verify-code :
      (s : Stream) (r : ArtifactCommitRequest) (actual : Bytes)
      → (verify s r actual ≡ host_err_ok) ⊎ (verify s r actual ≡ host_err_invalid)
  unfolding verify
  verify-code s r actual = ground arith

  encoded_response-code :
      (encoding : Option Bytes) (limit : ℕ)
      → ((payload : Bytes) × (encoded_response encoding limit ≡ (host_err_ok, payload)))
        ⊎ ((k : ℕ) × (encoded_response encoding limit ≡ (negsuc k, [])))
  unfolding encoded_response
  encoded_response-code none limit = inr (_, refl)
  encoded_response-code (some payload) limit = elim (Bool-cases (ltb limit (length payload))) [
    | inl e ↦ inr (2, rw e refl)
    | inr e ↦ inl (payload, rw e refl)
  ]

  response-code :
      (q : ArtifactOpenRequest) (sha : Bytes) (size limit : ℕ)
      → ((payload : Bytes) × (encode_local_commit_response codec q sha size limit
            ≡ (host_err_ok, payload)))
        ⊎ ((k : ℕ) × (encode_local_commit_response codec q sha size limit ≡ (negsuc k, [])))
  unfolding encode_local_commit_response
  response-code q sha size limit = encoded_response-code _ limit

  module _ {s : Stream} {r : ArtifactCommitRequest} {a b : Artifacts} {limit n : ℕ}
      {payload : Bytes} where
    refused :
        {k : ℕ} {x : Bytes} {c : Artifacts}
        → reply (negsuc k) x c ≡ reply (pos n) payload b
        → IsPublished a b s r limit n payload
    refused e = cc

    published_lem :
        {p : Bytes}
        → IsSound s
        → verify s r (codec.sum s.hashed) ≡ host_err_ok
        → encode_local_commit_response codec s.request (codec.sum s.hashed) s.size limit
          ≡ (host_err_ok, p)
        → reply (pos (length p)) p (put_published codec a s) ≡ reply (pos n) payload b
        → IsPublished a b s r limit n payload
    published_lem {p} w c f e = record {
      asked_digest =
          subst (λ x. (wanted_digest s r ≡ []) ⊎ (wanted_digest s r ≡ codec.sum x)) w.hashed_file
            (verify-asked s r (codec.sum s.hashed) c).0;
      asked_size = λ p. (verify-asked s r (codec.sum s.hashed) c).1 p ∙ w.counted;
      recorded = ap (λ x. x.1.committed) (sym e);
      content =
          subst (λ x. lookup (published codec a s).path x.1.files ≡ some s.file) e
            (rw (lookup-insert, equal_refl) refl);
      digest = ap codec.sum w.hashed_file;
      counted = w.counted;
      response =
          subst
            (λ x.
              encode_local_commit_response codec s.request (codec.sum s.file) (length s.file) limit
              ≡ (host_err_ok, x.0.1))
            e (rw (w.hashed_file, w.counted) at f);
      closed = ap (λ x. x.1.open_streams) (sym e);
      fits = subst (λ x. to_ℕ x.0.0 ≡ length x.0.1) e refl;
    }

  commit_stream-IsPublished :
      (io : Io) (r : ArtifactCommitRequest) (limit : ℕ) (s : Stream) (a b : Artifacts) (n : ℕ)
      (payload : Bytes)
      → IsSound s
      → commit_stream codec io r limit s a ≡ ((pos n, payload), b)
      → IsPublished a b s r limit n payload
  unfolding commit_stream
  commit_stream-IsPublished io r limit s a b n payload w e =
      elim (verify-code s r (codec.sum s.hashed)) [
        | inr c ↦ refused (rw c at e)
        | inl c ↦ elim (Bool-cases io.close_fails) [
          | inl d ↦ refused (rw (c, d) at e)
          | inr d ↦ elim (response-code s.request (codec.sum s.hashed) s.size limit) [
            | inr (k, f) ↦ refused (rw (c, d, f) at e)
            | inl (p, f) ↦ elim (Bool-cases io.publish_fails) [
              | inl g ↦ refused (rw (c, d, f, g) at e)
              | inr g ↦ published_lem w c f (rw (c, d, f, g) at e)
            ]
          ]
        ]
      ]

  commit_found-IsPublished :
      (io : Io) (h limit : ℕ) (a b : Artifacts) (x : Option Stream)
      (y : Option ArtifactCommitRequest) (n : ℕ) (payload : Bytes)
      → find h a.open_streams ≡ x
      → IsValid codec a
      → commit_found codec io h limit a x y ≡ reply (pos n) payload b
      → (s : Stream) × (r : ArtifactCommitRequest) × (find h a.open_streams ≡ some s)
        × (y ≡ some r)
        × IsPublished (record a { open_streams = forget h a.open_streams }) b s r limit n payload
  unfolding commit_found
  commit_found-IsPublished io h limit a b none none n payload f v e = absurd (code-clash e)
  commit_found-IsPublished io h limit a b (some s) none n payload f v e = absurd (code-clash e)
  commit_found-IsPublished io h limit a b none (some r) n payload f v e = absurd (code-clash e)
  commit_found-IsPublished io h limit a b (some s) (some r) n payload f v e = (
    s,
    r,
    f,
    refl,
    commit_stream-IsPublished io r limit s _ b n payload (find-IsSound h a.open_streams s v.sound f)
        e,
  )

  -- A commit that returns a byte count n and a payload, in a state whose open streams are sound: it
  -- was given the handle of an open stream, which is open no more; the digest and size that the
  -- commit or else the opening request asks for are those of the stream's content; the file at the
  -- stream's path is that content, the new last entry of the committed artifacts has its digest and
  -- length, and the payload is that entry's response, of n bytes.
  pub artifact_commit-IsPublished :
      (io : Io) (h : ℕ) (encoded : Bytes) (limit : ℕ) (a b : Artifacts) (n : ℕ) (payload : Bytes)
      → IsValid codec a
      → artifact_commit codec io h encoded limit a ≡ reply (pos n) payload b
      → (s : Stream) × (r : ArtifactCommitRequest) × (find h a.open_streams ≡ some s)
        × (commit_request codec encoded ≡ some r)
        × IsPublished (record a { open_streams = forget h a.open_streams }) b s r limit n payload
  unfolding artifact_commit
  artifact_commit-IsPublished io h encoded limit a b n payload v e =
      commit_found-IsPublished io h limit a b _ _ n payload refl v e
