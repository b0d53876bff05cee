-- ===== src/Artifact/Types.antt =====
-- The requests and responses of sdk/artifact.go, and the state of sdk/local_artifact.go.
use serviceradar_sdk_go.Base.{ℕ, Bool, List, Option}
use serviceradar_sdk_go.Strings.{Bytes, ℤ}
use serviceradar_sdk_go.Maps.{Dict}

pub record ArtifactOpenRequest : Type 0 where
  pub object_key : Bytes
  pub content_type : Bytes
  pub sha256 : Bytes
  pub size_bytes : ℤ
  pub attributes : Dict Bytes

pub record ArtifactWriteMetadata : Type 0 where
  pub index : ℤ
  pub final : Bool

pub record ArtifactCommitRequest : Type 0 where
  pub sha256 : Bytes
  pub size_bytes : ℤ

pub record ArtifactCommitResponse : Type 0 where
  pub object_key : Bytes
  pub content_type : Bytes
  pub sha256 : Bytes
  pub size_bytes : ℕ
  pub attributes : Dict Bytes

pub record LocalHostArtifact : Type 0 where
  pub object_key : Bytes
  pub path : Bytes
  pub content_type : Bytes
  pub sha256 : Bytes
  pub size_bytes : ℕ
  pub attributes : Dict Bytes

pub record Stream : Type 0 where
  pub request : ArtifactOpenRequest
  pub file : Bytes
  pub hashed : Bytes
  pub size : ℕ
  pub next_index : ℕ

-- The state that the artifact calls share: the counter of handles, the open streams, the committed
-- artifacts, and the files that commits have put below the artifact directory.
pub record Artifacts : Type 0 where
  pub dir : Bytes
  pub next : ℕ
  pub open_streams : List (ℕ × Stream)
  pub committed : List LocalHostArtifact
  pub files : Dict Bytes

-- What the operating system answers in one call: failures, and for a failed write the part of the
-- payload that got into the file.
pub record Io : Type 0 where
  pub mkdir_fails : Bool
  pub create_fails : Bool
  pub write_fails : Option Bytes
  pub close_fails : Bool
  pub publish_fails : Bool

-- Parameters of the model: what the code takes from encoding/json, crypto/sha256 and path/filepath.
-- `sum` is the digest in lower-case hexadecimal, `join` is filepath.Join.
pub record Codec : Type 0 where
  pub decode_open : Bytes → Option ArtifactOpenRequest
  pub decode_write : Bytes → Option ArtifactWriteMetadata
  pub decode_commit : Bytes → Option ArtifactCommitRequest
  pub encode_response : ArtifactCommitResponse → Option Bytes
  pub sum : Bytes → Bytes
  pub join : Bytes → Bytes → Bytes

abbrev pub max_open_streams : ℕ
max_open_streams = 8
