-- ===== src/Tests/Uploads.antt =====
-- sdk/artifact.go on a small upload.
use serviceradar_sdk_go.Base.{false, [], ◌∷◌, ◌++◌, ◌≡◌, refl, inr, some, length, arith, ok}
use serviceradar_sdk_go.Strings.{
  str, pos, equal, has_prefix, contains, split, blank, to_lower, trim_space,
}
use serviceradar_sdk_go.Maps.{lookup}
use serviceradar_sdk_go.Host.{host_err_ok}
use serviceradar_sdk_go.Artifact.{
  ArtifactOpenRequest, ArtifactCommitRequest, ArtifactCommitResponse, Artifacts, Codec, no_metadata,
  normalized, check_request, commit_response, published, put_published, valid_local_artifact_key,
  good_segment, valid_local_sha256, encode_local_commit_response,
}
use serviceradar_sdk_go.Artifact.Client.{
  ClientCodec, ArtifactHost, installed_host, abort, closed_stream,
}
use serviceradar_sdk_go.Artifact.Upload.{upload, concat, Agrees, HasRoom, IsWanted, upload-succeeds}
use serviceradar_sdk_go.Artifact.Upload.HostSteps.{quiet, filled, handed_out}
use serviceradar_sdk_go.Artifact.Handles.{IsUsedUp, commit_context-abort-IsUsedUp}

abbrev opening : ArtifactOpenRequest
opening = record {
  object_key = str "feeds/a.json";
  content_type = str "application/json";
  sha256 = [];
  size_bytes = pos 5;
  attributes = [];
}

abbrev closing : ArtifactCommitRequest
closing = record { sha256 = str "abcde"; size_bytes = pos 0 }

abbrev stored : ArtifactCommitResponse
stored = record {
  object_key = str "feeds/a.json";
  content_type = str "application/json";
  sha256 = str "abcde";
  size_bytes = 5;
  attributes = [];
}

abbrev codec : Codec
codec = record {
  decode_open = λ text. some opening;
  decode_write = λ text. some (record { index = pos 0; final = false });
  decode_commit = λ text. some closing;
  encode_response = λ response. some (str "r");
  sum = λ content. content;
  join = λ dir key. dir ++ (str "/" ++ key);
}

abbrev json : ClientCodec
json = record {
  encode_open = λ request. some (str "o");
  encode_write = λ meta. some (str "{}");
  encode_commit = λ request. some (str "c");
  decode_response = λ text. some stored;
}

abbrev empty : Artifacts
empty = record { dir = str "d"; next = 0; open_streams = []; committed = []; files = [] }

normalized-opening : normalized opening ≡ opening
unfolding normalized trim_space to_lower
normalized-opening = refl

request_accepted : check_request codec (normalized opening) ≡ host_err_ok
unfolding check_request valid_local_artifact_key has_prefix contains split good_segment equal
    normalized trim_space to_lower valid_local_sha256 encode_local_commit_response
request_accepted = refl

json-Agrees : Agrees codec json opening closing (str "o") (str "{}") (str "c")
unfolding no_metadata
json-Agrees = record {
  opening_sent = refl;
  opening_read = refl;
  opening_given = refl;
  opening_short = ground arith;
  meta_sent = refl;
  meta_read = refl;
  meta_given = refl;
  closing_sent = refl;
  closing_read = refl;
  closing_given = refl;
}

empty-HasRoom : HasRoom empty
unfolding blank trim_space
empty-HasRoom = record { dir_given = refl; few = ground arith; handles_left = ground arith }

content-IsWanted :
    IsWanted codec json
      (normalized opening)
      closing
      (concat (str "abc" ∷ str "de" ∷ []))
      2
      (str "r")
unfolding concat normalized trim_space to_lower commit_response
content-IsWanted = record {
  bounded = λ p. ground arith;
  digest = inr refl;
  size = λ p. refl;
  answered = refl;
  answer_fits = ground arith;
  answer_read = refl;
}

abbrev uploaded : Artifacts
uploaded =
    put_published codec (handed_out empty)
      (filled (normalized opening) (concat (str "abc" ∷ str "de" ∷ [])) 2)

upload-succeeds_example :
    (upload json
        (installed_host codec quiet)
        opening
        (str "abc" ∷ str "de" ∷ [])
        closing
        (some empty)
      ≡ (
        ok (
            commit_response codec
              (normalized opening)
              (concat (str "abc" ∷ str "de" ∷ []))
              (length (concat (str "abc" ∷ str "de" ∷ [])))),
        (closed_stream, some uploaded),
      ))
    × (lookup
          (published codec empty
            (filled (normalized opening) (concat (str "abc" ∷ str "de" ∷ [])) 2)).path
          uploaded.files
        ≡ some (concat (str "abc" ∷ str "de" ∷ [])))
upload-succeeds_example =
    upload-succeeds codec json empty opening closing (str "o") (str "{}") (str "c") json-Agrees
      empty-HasRoom (str "abc" ∷ str "de" ∷ []) (str "r") request_accepted
      ((refl, ground arith), ((refl, ground arith), tt)) content-IsWanted

-- A host that takes everything.
abbrev yes : ArtifactHost Unit
yes = record {
  host_open = λ text s. (pos 1, s);
  host_write = λ h meta payload s. (pos (length payload), s);
  host_commit = λ h text limit s. ((pos 1, str "r"), s);
  host_abort = λ h s. (pos 0, s);
}

commit_context-abort-IsUsedUp_example : IsUsedUp json yes closed_stream
commit_context-abort-IsUsedUp_example =
    commit_context-abort-IsUsedUp json yes false closing (some (record { handle = 1 }))
      closed_stream stored tt tt (inr (unfold abort in refl))
