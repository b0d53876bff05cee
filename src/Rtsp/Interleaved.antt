-- ===== src/Rtsp/Interleaved.antt =====
-- sdk/rtsp.go, ParseInterleavedFrame: one RTP-over-RTSP/TCP frame.
use serviceradar_sdk_go.Base.{
  ℕ, ◌+◌, ◌<◌, not, ◌||◌, ◌∷◌, ◌++◌, ◌≡◌, ◌↔◌, ◌⊎◌, arith, ltb, ◌==◌, if◌then◌else◌, length, take,
  drop, get_or, length-append, take-append, Result, ok, err,
}
use serviceradar_sdk_go.Strings.{Bytes}
use serviceradar_sdk_go.Rtsp.Error.{RtspError, bad_interleaved, uint16, put_uint16, uint16_put}

pub record InterleavedFrame : Type 0 where
  pub channel : ℕ
  pub payload : Bytes

unfoldable pub parse_interleaved_frame : Bytes → Result RtspError InterleavedFrame
parse_interleaved_frame bytes =
    let size = uint16 (get_or bytes 2 0) (get_or bytes 3 0) in
    if ltb (length bytes) 4 || not (get_or bytes 0 0 == b'$')
    then err bad_interleaved
    else if ltb (length bytes) (4 + size)
    then err bad_interleaved
    else ok (record { channel = get_or bytes 1 0; payload = take size (drop 4 bytes) })

-- The frame on the wire: `$`, the channel, the length of the payload in 16 bits, the payload.
abbrev pub frame_bytes : InterleavedFrame → Bytes
frame_bytes f = b'$' ∷ f.channel ∷ (put_uint16 (length f.payload) ++ f.payload)

-- A frame with a payload of less than 65536 bytes is read back whole, whatever bytes follow it.
pub parse-frame_bytes :
    (f : InterleavedFrame) (rest : Bytes)
    → length f.payload < 65536
    → parse_interleaved_frame (frame_bytes f ++ rest) ≡ ok f
unfolding parse_interleaved_frame
parse-frame_bytes f rest h =
    ground (
      arith,
      uint16_put (length f.payload),
      length-append f.payload rest,
      take-append f.payload rest,
    )

-- The parser fails exactly on an input that is shorter than the header, that does not begin with
-- `$`, or that is shorter than the frame its header announces.
pub parse_interleaved_frame-eq-err :
    (bytes : Bytes)
    → (parse_interleaved_frame bytes ≡ err bad_interleaved) ↔ (
        (length bytes < 4)
        ⊎ ((get_or bytes 0 0 ≡ b'$' → ⊥)
            ⊎ (length bytes < 4 + uint16 (get_or bytes 2 0) (get_or bytes 3 0))))
unfolding parse_interleaved_frame
parse_interleaved_frame-eq-err bytes = ground arith
