-- ===== src/Rtsp/Packet.antt =====
-- sdk/rtsp.go, ParseRTPPacket: payload, marker bit and timestamp of an RTP packet.
-- On a byte `b`, `b & 0x0F` is `b % 16`, `b & 0x10 != 0` is `b / 16 % 2 == 1`, and
-- `b & 0x80 != 0` is `128 <= b`.
pub mod RoundTrip
use serviceradar_sdk_go.Base.{
  ℕ, ◌+◌, ◌*◌, ◌/◌, ◌%◌, Bool, true, false, ◌==◌, if◌then◌else◌, ltb, leb, length, drop, get_or,
  Result, ok, err,
}
use serviceradar_sdk_go.Strings.{Bytes}
use serviceradar_sdk_go.Rtsp.Error.{RtspError, packet_too_short, uint16, uint32}

pub record RtpPayload : Type 0 where
  pub payload : Bytes
  pub marker : Bool
  pub timestamp : ℕ

-- The bytes after the header of `offset` bytes.
payload_at : Bytes → ℕ → RtpPayload
payload_at packet offset = record {
  payload = drop offset packet;
  marker = leb 128 (get_or packet 1 0);
  timestamp =
      uint32 (get_or packet 4 0) (get_or packet 5 0) (get_or packet 6 0) (get_or packet 7 0);
}

-- The header extension, if there is one, starts at `offset`.
skip_extension : Bytes → ℕ → Result RtspError RtpPayload
unfolding payload_at
skip_extension packet offset =
    let ext_len = uint16 (get_or packet (offset + 2) 0) (get_or packet (offset + 3) 0) * 4 in
    if ltb (length packet) (offset + 4)
    then err packet_too_short
    else if ltb (length packet) (offset + (4 + ext_len))
    then err packet_too_short
    else ok (payload_at packet (offset + (4 + ext_len)))

unfoldable pub parse_rtp_packet : Bytes → Result RtspError RtpPayload
unfolding skip_extension payload_at
parse_rtp_packet packet =
    let offset = 12 + get_or packet 0 0 % 16 * 4 in
    if ltb (length packet) 12
    then err packet_too_short
    else if ltb (length packet) offset
    then err packet_too_short
    else if get_or packet 0 0 / 16 % 2 == 1
    then skip_extension packet offset
    else ok (payload_at packet offset)
