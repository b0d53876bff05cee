-- ===== src/Artifact/Staging.antt =====
-- Sequences of artifact calls, from a host with an empty artifact directory.
use serviceradar_sdk_go.Base.{ℕ, List, [], ◌∷◌, ◌≡◌, refl, none, All, arith}
use serviceradar_sdk_go.Strings.{Bytes}
use serviceradar_sdk_go.Artifact.{
  Artifacts, Io, Codec, find, artifact_open, artifact_write, artifact_commit, artifact_abort,
  abort_open_artifacts,
}
use serviceradar_sdk_go.Artifact.Laws.{
  IsValid, Keeps, artifact_open-Keeps, artifact_write-Keeps, commit_found-Keeps, abort_found-Keeps,
}

-- One call of the plugin, with what the operating system answers in it.
pub data Call : Type 0 where
  open_call : Io → Bytes → Call
  write_call : Io → ℕ → Bytes → Bytes → Call
  commit_call : Io → ℕ → Bytes → ℕ → Call
  abort_call : ℕ → Call
  end_of_run : Call

-- No write to a temporary file fails.
abbrev WritesWhole : Call → Type 0
WritesWhole (open_call io encoded) = Unit
WritesWhole (write_call io h meta payload) = io.write_fails ≡ none
WritesWhole (commit_call io h encoded limit) = Unit
WritesWhole (abort_call h) = Unit
WritesWhole end_of_run = Unit

abbrev pub empty_dir : Bytes → Artifacts
empty_dir dir = record { dir = dir; next = 0; open_streams = []; committed = []; files = [] }

module _ (codec : Codec) where
  unfoldable pub call : Artifacts → Call → Artifacts
  call a (open_call io encoded) = (artifact_open codec io encoded a).1
  call a (write_call io h meta payload) = (artifact_write codec io h meta payload a).1
  call a (commit_call io h encoded limit) = (artifact_commit codec io h encoded limit a).1
  call a (abort_call h) = (artifact_abort h a).1
  call a end_of_run = abort_open_artifacts a

  unfoldable pub run : Artifacts → List Call → Artifacts
  run a [] = a
  run a (c ∷ cs) = run (call a c) cs

  artifact_commit-Keeps :
      (io : Io) (h : ℕ) (encoded : Bytes) (limit : ℕ) (a : Artifacts)
      → IsValid codec a
      → Keeps codec (artifact_commit codec io h encoded limit a)
  unfolding artifact_commit
  artifact_commit-Keeps io h encoded limit a v =
      commit_found-Keeps codec io h limit a (find h a.open_streams) _ refl v

  call-IsValid :
      (a : Artifacts) (c : Call) → WritesWhole c → IsValid codec a → IsValid codec (call a c)
  unfolding call artifact_abort abort_open_artifacts
  call-IsValid a (open_call io encoded) w v = (artifact_open-Keeps codec io encoded a v).state
  call-IsValid a (write_call io h meta payload) w v =
      (artifact_write-Keeps codec io h meta payload a w v).state
  call-IsValid a (commit_call io h encoded limit) w v =
      (artifact_commit-Keeps io h encoded limit a v).state
  call-IsValid a (abort_call h) w v = (abort_found-Keeps codec h a (find h a.open_streams) v).state
  call-IsValid a end_of_run w v = record { few = omega arith; sound = tt; described = v.described }

  run_from-IsValid :
      (a : Artifacts) (cs : List Call)
      → All WritesWhole cs
      → IsValid codec a
      → IsValid codec (run a cs)
  unfolding run
  run_from-IsValid a [] w v = v
  run_from-IsValid a (c ∷ cs) (w, ws) v = run_from-IsValid (call a c) cs ws (call-IsValid a c w v)

  -- From an empty artifact directory, through every sequence of calls in which no write to a
  -- temporary file fails, at most 8 streams are open, each open stream's file is what its hash was
  -- fed and has the length that its size counts, and the digest and size of each committed artifact
  -- are those of some content.
  pub run-IsValid :
      (dir : Bytes) (cs : List Call) → All WritesWhole cs → IsValid codec (run (empty_dir dir) cs)
  run-IsValid dir cs w =
      run_from-IsValid (empty_dir dir) cs w
        (record { few = omega arith; sound = tt; described = tt })
