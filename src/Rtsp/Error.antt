-- ===== src/Rtsp/Error.antt =====
-- The error values of sdk/rtsp.go, and Go's big-endian readers that it calls.
use serviceradar_sdk_go.Base.{ℕ, ◌+◌, ◌*◌, ◌/◌, ◌%◌, [], ◌∷◌, ◌≡◌, arith}
use serviceradar_sdk_go.Strings.{Bytes}

pub data RtspError : Type 0 where
  invalid_url no_video_track bad_response bad_interleaved : RtspError
  packet_too_short payload_too_short unsupported_nal no_session unauthorized : RtspError

-- binary.BigEndian.Uint16
abbrev pub uint16 : ℕ → ℕ → ℕ
uint16 a b = a * 256 + b

-- binary.BigEndian.Uint32
abbrev pub uint32 : ℕ → ℕ → ℕ → ℕ → ℕ
uint32 a b c d = a * 16777216 + b * 65536 + c * 256 + d

-- The two bytes of a 16-bit number, the high one first.
abbrev pub put_uint16 : ℕ → Bytes
put_uint16 n = n / 256 ∷ n % 256 ∷ []

-- The four bytes of a 32-bit number, the high one first.
abbrev pub put_uint32 : ℕ → Bytes
put_uint32 n = n / 16777216 ∷ n / 65536 % 256 ∷ n / 256 % 256 ∷ n % 256 ∷ []

pub uint16_put : (n : ℕ) → uint16 (n / 256) (n % 256) ≡ n
uint16_put n = omega arith
