-- ===== src/Artifact/Laws.antt =====
-- What artifact staging keeps: the number of open streams, their bookkeeping, and what stands
-- behind every committed artifact.
use serviceradar_sdk_go.Base.{
  ℕ, suc, ◌+◌, ◌≤◌, Bool, true, false, List, [], ◌∷◌, ◌++◌, ◌≡◌, refl, ap, Option, none, some, ◌==◌,
  if◌then◌else◌, length, leb, All, arith, length-append, Bool-cases, inl, inr,
}
use mathlib.Core.Path.{subst}
use mathlib.Core.Option.{some-injective}
use serviceradar_sdk_go.Strings.{Bytes}
use serviceradar_sdk_go.Maps.{Dict}
use serviceradar_sdk_go.Artifact.{
  ArtifactOpenRequest, ArtifactWriteMetadata, ArtifactCommitRequest, LocalHostArtifact, Stream,
  Artifacts, Io, Codec, max_open_streams, open_stream, fresh_stream, put_stream, artifact_open,
  find, forget, replace, write_stream, artifact_write, published, open_decoded, open_checked,
  write_found, commit_found, abort_found, commit_stream,
}

-- An open stream whose writes have all succeeded: its file holds what its hash was fed, and its
-- size counts those bytes.
pub record IsSound (s : Stream) : Type 0 where
  pub hashed_file : s.hashed ≡ s.file
  pub counted : s.size ≡ length s.file

-- The digest and the size of a committed artifact are those of some content.
abbrev Describes : Codec → LocalHostArtifact → Type 0
Describes codec c =
    (content : Bytes) × (c.sha256 ≡ codec.sum content) × (c.size_bytes ≡ length content)

module _ (codec : Codec) where
  pub record IsValid (a : Artifacts) : Type 0 where
    pub few : length a.open_streams ≤ max_open_streams
    pub sound : All (λ entry. IsSound entry.1) a.open_streams
    pub described : All (Describes codec) a.committed

length-replace : (h : ℕ) (s : Stream) (m : List (ℕ × Stream)) → length (replace h s m) ≡ length m
unfolding replace
length-replace h s [] = refl
length-replace h s ((k, t) ∷ m) = ap suc (length-replace h s m)

length-forget : (h : ℕ) (m : List (ℕ × Stream)) → length (forget h m) ≤ length m
unfolding forget
length-forget h [] = omega arith
length-forget h ((k, t) ∷ m) = ground (arith, length-forget h m)

abbrev AllSound : List (ℕ × Stream) → Type 0
AllSound = All (λ entry. IsSound entry.1)

AllSound-forget : (h : ℕ) (m : List (ℕ × Stream)) → AllSound m → AllSound (forget h m)
unfolding forget
AllSound-forget h [] v = tt
AllSound-forget h ((k, t) ∷ m) (v, vs) = elim (Bool-cases (k == h)) [
  | inl e ↦ rw e (AllSound-forget h m vs)
  | inr e ↦ rw e (v, AllSound-forget h m vs)
]

AllSound-replace :
    (h : ℕ) (s : Stream) (m : List (ℕ × Stream)) → IsSound s → AllSound m → AllSound (replace h s m)
unfolding replace
AllSound-replace h s [] w v = tt
AllSound-replace h s ((k, t) ∷ m) w (v, vs) = elim (Bool-cases (k == h)) [
  | inl e ↦ rw e (w, AllSound-replace h s m w vs)
  | inr e ↦ rw e (v, AllSound-replace h s m w vs)
]

IsSound-some : (t s : Stream) → some t ≡ some s → IsSound t → IsSound s
IsSound-some t s e v = subst IsSound (some-injective t s e) v

pub find-IsSound :
    (h : ℕ) (m : List (ℕ × Stream)) (s : Stream) → AllSound m → find h m ≡ some s → IsSound s
unfolding find
find-IsSound h [] s v e = cc
find-IsSound h ((k, t) ∷ m) s (v, vs) e = elim (Bool-cases (k == h)) [
  | inl c ↦ IsSound-some t s (rw c at e) v
  | inr c ↦ find-IsSound h m s vs (rw c at e)
]

module _ (codec : Codec) where
  -- The state that a call returns is valid.
  pub record Keeps {A : Type 0} (result : A × Artifacts) : Type 0 where
    pub state : IsValid codec result.1

  pub keeps : {A : Type 0} (x : A) (a : Artifacts) → IsValid codec a → Keeps (x, a)
  keeps x a v = record { state = v }

  if-Keeps :
      {A : Type 0} {b : Bool} {x y : A × Artifacts}
      → (b ≡ true → Keeps x)
      → (b ≡ false → Keeps y)
      → Keeps (if b then x else y)
  if-Keeps {b = true} f g = f refl
  if-Keeps {b = false} f g = g refl

  opened-IsValid :
      (k : ℕ) (r : ArtifactOpenRequest) (a : Artifacts)
      → leb max_open_streams (length a.open_streams) ≡ false
      → IsValid codec a
      → IsValid codec
          (record a { next = k; open_streams = (k, fresh_stream r) ∷ forget k a.open_streams })
  opened-IsValid k r a room v = record {
    few = ground (arith, length-forget k a.open_streams);
    sound =
        (record { hashed_file = refl; counted = refl }, AllSound-forget k a.open_streams v.sound);
    described = v.described;
  }

  open_stream-Keeps :
      (io : Io) (r : ArtifactOpenRequest) (a : Artifacts)
      → IsValid codec a
      → Keeps (open_stream io r a)
  unfolding open_stream
  open_stream-Keeps io r a v = search (if-Keeps, keeps, opened-IsValid) depth 20

  open_decoded-Keeps :
      (io : Io) (a : Artifacts) (r : Option ArtifactOpenRequest)
      → IsValid codec a
      → Keeps (open_decoded codec io a r)
  unfolding open_decoded open_checked
  open_decoded-Keeps io a none v = keeps _ a v
  open_decoded-Keeps io a (some r) v = search (if-Keeps, keeps, open_stream-Keeps) depth 20

  pub artifact_open-Keeps :
      (io : Io) (encoded : Bytes) (a : Artifacts)
      → IsValid codec a
      → Keeps (artifact_open codec io encoded a)
  unfolding artifact_open
  artifact_open-Keeps io encoded a v = search (if-Keeps, keeps, open_decoded-Keeps) depth 20

  replaced-IsValid :
      (h : ℕ) (s : Stream) (a : Artifacts)
      → IsSound s
      → IsValid codec a
      → IsValid codec (put_stream h s a)
  replaced-IsValid h s a w v = record {
    few = omega (arith, v.few, length-replace h s a.open_streams);
    sound = AllSound-replace h s a.open_streams w v.sound;
    described = v.described;
  }

  grown_IsSound :
      (s : Stream) (payload : Bytes)
      → IsSound s
      → IsSound (record s {
        file = s.file ++ payload;
        hashed = s.hashed ++ payload;
        size = s.size + length payload;
        next_index = s.next_index + 1;
      })
  grown_IsSound s payload w = record {
    hashed_file = ap (λ t. t ++ payload) w.hashed_file;
    counted = omega (arith, w.counted, length-append s.file payload);
  }

  write_stream-Keeps :
      (io : Io) (h : ℕ) (meta : ArtifactWriteMetadata) (payload : Bytes) (a : Artifacts)
      (s : Stream)
      → io.write_fails ≡ none
      → IsSound s
      → IsValid codec a
      → Keeps (write_stream io h meta payload a s)
  unfolding write_stream
  write_stream-Keeps io h meta payload a s whole w v =
      let u = replaced-IsValid h _ a (grown_IsSound s payload w) v in
      rw whole (search (if-Keeps, keeps, u, v) depth 20)

  write_found-Keeps :
      (io : Io) (h : ℕ) (payload : Bytes) (a : Artifacts) (s : Option Stream)
      (meta : Option ArtifactWriteMetadata)
      → io.write_fails ≡ none
      → find h a.open_streams ≡ s
      → IsValid codec a
      → Keeps (write_found codec io h payload a s meta)
  unfolding write_found
  write_found-Keeps io h payload a s none whole e v = keeps _ a v
  write_found-Keeps io h payload a none (some meta) whole e v = keeps _ a v
  write_found-Keeps io h payload a (some s) (some meta) whole e v =
      write_stream-Keeps io h meta payload a s whole (find-IsSound h a.open_streams s v.sound e) v

  pub artifact_write-Keeps :
      (io : Io) (h : ℕ) (meta payload : Bytes) (a : Artifacts)
      → io.write_fails ≡ none
      → IsValid codec a
      → Keeps (artifact_write codec io h meta payload a)
  unfolding artifact_write
  artifact_write-Keeps io h meta payload a whole v =
      let found : (m : Option ArtifactWriteMetadata)
          → Keeps (write_found codec io h payload a (find h a.open_streams) m) =
        λ m. write_found-Keeps io h payload a (find h a.open_streams) m whole refl v in
      search (if-Keeps, keeps, found) depth 20

  pub forgotten-IsValid :
      (h : ℕ) (a : Artifacts)
      → IsValid codec a
      → IsValid codec (record a { open_streams = forget h a.open_streams })
  forgotten-IsValid h a v = record {
    few = omega (arith, v.few, length-forget h a.open_streams);
    sound = AllSound-forget h a.open_streams v.sound;
    described = v.described;
  }

  All-snoc :
      (cs : List LocalHostArtifact) (c : LocalHostArtifact)
      → All (Describes codec) cs
      → Describes codec c
      → All (Describes codec) (cs ++ (c ∷ []))
  All-snoc [] c d e = (e, tt)
  All-snoc (x ∷ cs) c (d, ds) e = (d, All-snoc cs c ds e)

  committed-IsValid :
      (files : Dict Bytes) (s : Stream) (a : Artifacts)
      → IsSound s
      → IsValid codec a
      → IsValid codec
          (record a { committed = a.committed ++ (published codec a s ∷ []); files = files })
  committed-IsValid files s a w v = record {
    few = v.few;
    sound = v.sound;
    described = All-snoc a.committed _ v.described (s.file, ap codec.sum w.hashed_file, w.counted);
  }

  commit_stream-Keeps :
      (io : Io) (r : ArtifactCommitRequest) (limit : ℕ) (s : Stream) (a : Artifacts)
      → IsSound s
      → IsValid codec a
      → Keeps (commit_stream codec io r limit s a)
  unfolding commit_stream
  commit_stream-Keeps io r limit s a w v = search (if-Keeps, keeps, committed-IsValid) depth 20

  pub commit_found-Keeps :
      (io : Io) (h limit : ℕ) (a : Artifacts) (s : Option Stream) (r : Option ArtifactCommitRequest)
      → find h a.open_streams ≡ s
      → IsValid codec a
      → Keeps (commit_found codec io h limit a s r)
  unfolding commit_found
  commit_found-Keeps io h limit a s none e v = keeps _ a v
  commit_found-Keeps io h limit a none (some r) e v = keeps _ a v
  commit_found-Keeps io h limit a (some s) (some r) e v =
      commit_stream-Keeps io r limit s _ (find-IsSound h a.open_streams s v.sound e)
        (forgotten-IsValid h a v)

  pub abort_found-Keeps :
      (h : ℕ) (a : Artifacts) (s : Option Stream) → IsValid codec a → Keeps (abort_found h a s)
  unfolding abort_found
  abort_found-Keeps h a none v = keeps _ a v
  abort_found-Keeps h a (some s) v = keeps _ _ (forgotten-IsValid h a v)
