-- ===== src/Tests/Artifacts.antt =====
-- sdk/local_artifact.go on small artifacts.
use serviceradar_sdk_go.Base.{true, false, List, [], ◌∷◌, ◌++◌, ◌≡◌, refl, none, some, All, arith}
use serviceradar_sdk_go.Strings.{str, pos, split, has_prefix, contains, equal, to_lower, trim_space}
use serviceradar_sdk_go.Maps.{insert}
use serviceradar_sdk_go.Artifact.{
  valid_local_artifact_key, ArtifactOpenRequest, ArtifactCommitRequest, Artifacts, Codec, Io,
  Stream, find, forget, artifact_commit, commit_request, good_segment, commit_stream, verify,
  encode_local_commit_response,
}
use serviceradar_sdk_go.Artifact.Keys.{IsName, valid_local_artifact_key-names}
use serviceradar_sdk_go.Artifact.Laws.{IsValid}
use serviceradar_sdk_go.Artifact.Staging.{
  Call, open_call, write_call, commit_call, abort_call, end_of_run, empty_dir, run, run-IsValid,
}
use serviceradar_sdk_go.Artifact.Commit.{reply, IsPublished, artifact_commit-IsPublished}

safe_key : valid_local_artifact_key (str "feeds/a.json") ≡ true
unfolding valid_local_artifact_key has_prefix contains split good_segment equal
safe_key = refl

valid_local_artifact_key-names_example :
    (has_prefix (str "feeds/a.json") (str "/") ≡ false)
    × All IsName (split (str "feeds/a.json") (str "/"))
valid_local_artifact_key-names_example =
    valid_local_artifact_key-names (str "feeds/a.json") safe_key

abbrev request : ArtifactOpenRequest
request = record {
  object_key = str "feeds/a.json";
  content_type = str "application/json";
  sha256 = [];
  size_bytes = pos 0;
  attributes = [];
}

-- Codecs that know one request and one response, and a hash that keeps the bytes.
abbrev codec : Codec
codec = record {
  decode_open = λ text. some request;
  decode_write = λ text. none;
  decode_commit = λ text. none;
  encode_response = λ response. some (str "{}");
  sum = λ content. content;
  join = λ dir key. dir ++ (str "/" ++ key);
}

abbrev io : Io
io = record {
  mkdir_fails = false;
  create_fails = false;
  write_fails = none;
  close_fails = false;
  publish_fails = false;
}

abbrev calls : List Call
calls =
    open_call io (str "{}")
    ∷ write_call io 1 [] (str "abc")
    ∷ open_call io (str "{}")
    ∷ commit_call io 1 [] 64
    ∷ abort_call 2
    ∷ end_of_run
    ∷ []

run-IsValid_example : IsValid codec (run codec (empty_dir (str "d")) calls)
run-IsValid_example = run-IsValid codec (str "d") calls (tt, (refl, (tt, (tt, (tt, (tt, tt))))))

abbrev stream : Stream
stream = record {
  request = request;
  file = str "abc";
  hashed = str "abc";
  size = 3;
  next_index = 1;
}

abbrev staged : Artifacts
staged = record {
  dir = str "d";
  next = 1;
  open_streams = (1, stream) ∷ [];
  committed = [];
  files = [];
}

abbrev after_commit : Artifacts
after_commit = record {
  dir = str "d";
  next = 1;
  open_streams = [];
  committed =
      record {
        object_key = str "feeds/a.json";
        path = str "d/feeds/a.json";
        content_type = str "application/json";
        sha256 = str "abc";
        size_bytes = 3;
        attributes = [];
      }
      ∷ [];
  files = (str "d/feeds/a.json", str "abc") ∷ [];
}

staged-IsValid : IsValid codec staged
staged-IsValid = record {
  few = ground arith;
  sound = (record { hashed_file = refl; counted = refl }, tt);
  described = tt;
}

committed_lem : artifact_commit codec io 1 [] 64 staged ≡ reply (pos 2) (str "{}") after_commit
unfolding artifact_commit find commit_stream verify to_lower trim_space encode_local_commit_response
    forget insert
committed_lem = refl

artifact_commit-IsPublished_example :
    (s : Stream) × (r : ArtifactCommitRequest) × (find 1 staged.open_streams ≡ some s)
    × (commit_request codec [] ≡ some r)
    × IsPublished codec
        (record staged { open_streams = forget 1 staged.open_streams })
        after_commit
        s
        r
        64
        2
        (str "{}")
artifact_commit-IsPublished_example =
    artifact_commit-IsPublished codec io 1 [] 64 staged after_commit 2 (str "{}") staged-IsValid
      committed_lem
