-- ===== src/Artifact/Checks.antt =====
-- sdk/local_artifact.go: what makes an object key and a digest valid, and the default content type.
use serviceradar_sdk_go.Base.{
  ℕ, ◌*◌, Bool, not, ◌&&◌, ◌||◌, ◌==◌, if◌then◌else◌, null, length, leb, all,
}
use serviceradar_sdk_go.Strings.{
  Bytes, str, equal, has_prefix, contains, split, trim_space, to_lower,
}
use serviceradar_sdk_go.Artifact.Types.{ArtifactOpenRequest}

-- `^[A-Za-z0-9._/-]+$`
abbrev key_byte : ℕ → Bool
key_byte c =
    (leb b'A' c && leb c b'Z')
    || (leb b'a' c && leb c b'z')
    || (leb b'0' c && leb c b'9')
    || c == b'.'
    || c == b'_'
    || c == b'/'
    || c == b'-'

unfoldable pub good_segment : Bytes → Bool
good_segment segment = not (null segment) && not (equal segment (str "."))

unfoldable pub valid_local_artifact_key : Bytes → Bool
valid_local_artifact_key key =
    not (
      null key
      || has_prefix key (str "/")
      || contains key (str "..")
      || contains key (str "//")
      || not (all key_byte key))
    && all good_segment (split key (str "/"))

abbrev hex_byte : ℕ → Bool
hex_byte c = (leb b'0' c && leb c b'9') || (leb b'a' c && leb c b'f') || (leb b'A' c && leb c b'F')

unfoldable pub valid_local_sha256 : Bytes → Bool
valid_local_sha256 value = length value == 64 && all hex_byte value

-- MaxArtifactCommitResponseBytes, and strings.Repeat("f", 64)
abbrev pub max_commit_response : ℕ
max_commit_response = 64 * 1024

abbrev pub probe_sha : Bytes
probe_sha = str "ffffffffffffffffffffffffffffffffffffffffffffffffffffffffffffffff"

-- The trimmed request, with its default content type.
unfoldable pub normalized : ArtifactOpenRequest → ArtifactOpenRequest
normalized request =
    let content_type = trim_space request.content_type in
    record request {
      object_key = trim_space request.object_key;
      content_type = if null content_type then str "application/octet-stream" else content_type;
      sha256 = to_lower (trim_space request.sha256);
    }
