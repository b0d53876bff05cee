-- ===== src/Artifact/Upload/HostSteps.antt =====
-- The steps of an upload on the host: what an open, a write and a commit do to one stream.
use serviceradar_sdk_go.Base.{
  ℕ, ◌+◌, ◌^◌, ◌<◌, ◌≤◌, true, false, not, ◌&&◌, List, [], ◌∷◌, ◌++◌, ◌≡◌, refl, sym, ap, ◌⊎◌, inl,
  inr, none, some, ◌==◌, null, length, leb, ltb, arith, length-append, Bool-cases,
}
use serviceradar_sdk_go.Strings.{Bytes, pos, is_pos, to_ℕ, equal, equal_iff, blank}
use serviceradar_sdk_go.Host.{host_err_ok, max_payload_bytes}
use serviceradar_sdk_go.Artifact.{
  ArtifactOpenRequest, ArtifactCommitRequest, Artifacts, Io, Codec, Stream, max_commit_response,
  max_open_streams, no_metadata, normalized, check_request, next_handle, forget, find, replace,
  open_stream, open_checked, open_decoded, artifact_open, write_stream, write_found, artifact_write,
  verify, commit_response, encode_local_commit_response, encoded_response, commit_stream,
  commit_found, artifact_commit, put_published,
}
use serviceradar_sdk_go.Artifact.Commit.{wanted_digest, wanted_size}

-- An operating system without failures.
abbrev pub quiet : Io
quiet = record {
  mkdir_fails = false;
  create_fails = false;
  write_fails = none;
  close_fails = false;
  publish_fails = false;
}

-- The stream of a request that has been sent some content in n chunks.
abbrev pub filled : ArtifactOpenRequest → Bytes → ℕ → Stream
filled q content n = record {
  request = q;
  file = content;
  hashed = content;
  size = length content;
  next_index = n;
}

abbrev pub handed_out : Artifacts → Artifacts
handed_out a = record a {
  next = next_handle a;
  open_streams = forget (next_handle a) a.open_streams;
}

abbrev pub with_stream : Stream → Artifacts → Artifacts
with_stream s a = record a {
  next = next_handle a;
  open_streams = (next_handle a, s) ∷ forget (next_handle a) a.open_streams;
}

forget_twice : (h : ℕ) (m : List (ℕ × Stream)) → forget h (forget h m) ≡ forget h m
unfolding forget
forget_twice h [] = refl
forget_twice h ((k, t) ∷ m) = elim (Bool-cases (k == h)) [
  | inl e ↦ rw e (forget_twice h m)
  | inr e ↦ rw e (rw e (ap (λ x. (k, t) ∷ x) (forget_twice h m)))
]

replace-forget :
    (h : ℕ) (s : Stream) (m : List (ℕ × Stream)) → replace h s (forget h m) ≡ forget h m
unfolding forget replace
replace-forget h s [] = refl
replace-forget h s ((k, t) ∷ m) = elim (Bool-cases (k == h)) [
  | inl e ↦ rw e (replace-forget h s m)
  | inr e ↦ rw e (rw e (ap (λ x. (k, t) ∷ x) (replace-forget h s m)))
]

same : (h : ℕ) → (h == h) ≡ true
same h = ground arith

find-head : (h : ℕ) (s : Stream) (m : List (ℕ × Stream)) → find h ((h, s) ∷ m) ≡ some s
unfolding find
find-head h s m = rw (same h) refl

forget-head :
    (h : ℕ) (s : Stream) (m : List (ℕ × Stream)) → forget h ((h, s) ∷ forget h m) ≡ forget h m
unfolding forget
forget-head h s m = rw (same h) (forget_twice h m)

replace-head :
    (h : ℕ) (s t : Stream) (m : List (ℕ × Stream))
    → replace h s ((h, t) ∷ forget h m) ≡ (h, s) ∷ forget h m
unfolding replace
replace-head h s t m = rw (same h) (ap (λ x. (h, s) ∷ x) (replace-forget h s m))

module _ (codec : Codec) where
  open_stream_lem :
      (q : ArtifactOpenRequest) (a : Artifacts)
      → length a.open_streams < max_open_streams
      → a.next + 1 < 2 ^ 31
      → open_stream quiet q a ≡ (pos (next_handle a), with_stream (filled q [] 0) a)
  unfolding open_stream
  open_stream_lem q a room small =
      let f : leb max_open_streams (length a.open_streams) ≡ false = ground arith in
      let g : ltb (next_handle a) (2 ^ 31) ≡ true = ground arith in rw (f, g) refl

  pub artifact_open_lem :
      (text : Bytes) (req : ArtifactOpenRequest) (a : Artifacts)
      → blank a.dir ≡ false
      → null text ≡ false
      → length text ≤ max_payload_bytes
      → codec.decode_open text ≡ some req
      → check_request codec (normalized req) ≡ host_err_ok
      → length a.open_streams < max_open_streams
      → a.next + 1 < 2 ^ 31
      → artifact_open codec quiet text a
        ≡ (pos (next_handle a), with_stream (filled (normalized req) [] 0) a)
  unfolding artifact_open open_decoded open_checked
  artifact_open_lem text req a d n l e c room small =
      let f : ltb max_payload_bytes (length text) ≡ false = ground arith in
      rw (d, n, f, e, c) (open_stream_lem (normalized req) a room small)

  pub write_lem :
      (q : ArtifactOpenRequest) (content payload text : Bytes) (n : ℕ) (a : Artifacts)
      → null payload ≡ false
      → length payload ≤ max_payload_bytes
      → null text ≡ false
      → codec.decode_write text ≡ some no_metadata
      → (is_pos q.size_bytes ≡ true → length (content ++ payload) ≤ to_ℕ q.size_bytes)
      → artifact_write codec quiet (next_handle a) text payload (with_stream (filled q content n) a)
        ≡ (pos (length payload), with_stream (filled q (content ++ payload) (n + 1)) a)
  unfolding artifact_write write_found write_stream no_metadata
  write_lem q content payload text n a p l t d w =
      let f : ltb max_payload_bytes (length payload) ≡ false = ground arith in
      let total : length content + length payload ≡ length (content ++ payload) =
        sym (length-append content payload) in
      let g : (is_pos q.size_bytes && ltb (to_ℕ q.size_bytes) (length (content ++ payload)))
          ≡ false =
        ground arith in
      let h = next_handle a in
      let m = forget h a.open_streams in
      rw
        (
          p,
          f,
          t,
          d,
          find-head h (filled q content n) m,
          total,
          g,
          replace-head h (filled q (content ++ payload) (n + 1)) (filled q content n)
              a.open_streams,
        )
        refl

  pub verify_lem :
      (s : Stream) (r : ArtifactCommitRequest) (actual : Bytes)
      → (wanted_digest s r ≡ []) ⊎ (wanted_digest s r ≡ actual)
      → (is_pos (wanted_size s r) ≡ true → to_ℕ (wanted_size s r) ≡ s.size)
      → verify s r actual ≡ host_err_ok
  unfolding verify
  verify_lem s r actual d z =
      let f : (not (null (wanted_digest s r)) && not (equal (wanted_digest s r) actual)) ≡ false =
        matches (wanted_digest s r) d in
      let g : (is_pos (wanted_size s r) && not (to_ℕ (wanted_size s r) == s.size)) ≡ false =
        ground (arith, z) in
      rw (f, g) refl
    where
      matches :
          (x : Bytes) → (x ≡ []) ⊎ (x ≡ actual) → (not (null x) && not (equal x actual)) ≡ false
      matches [] d = refl
      matches (c ∷ x) (inl e) = cc
      matches (c ∷ x) (inr e) = ground (arith, equal_iff (c ∷ x) actual)

  pub commit_lem :
      (q : ArtifactOpenRequest) (content text payload : Bytes) (n : ℕ) (a : Artifacts)
      (r : ArtifactCommitRequest)
      → null text ≡ false
      → codec.decode_commit text ≡ some r
      → verify (filled q content n) r (codec.sum content) ≡ host_err_ok
      → codec.encode_response (commit_response codec q (codec.sum content) (length content))
        ≡ some payload
      → length payload ≤ max_commit_response
      → artifact_commit codec quiet
          (next_handle a)
          text
          max_commit_response
          (with_stream (filled q content n) a)
        ≡ ((pos (length payload), payload), put_published codec (handed_out a) (filled q content n))
  unfolding artifact_commit commit_found commit_stream encode_local_commit_response encoded_response
  commit_lem q content text payload n a r t d v e l =
      let f : ltb max_commit_response (length payload) ≡ false = ground arith in
      let h = next_handle a in
      let s = filled q content n in
      rw (t, d, find-head h s (forget h a.open_streams), forget-head h s a.open_streams, v, e, f)
        refl
