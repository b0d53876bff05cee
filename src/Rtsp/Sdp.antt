-- ===== src/Rtsp/Sdp.antt =====
-- sdk/rtsp.go: ParseH264TrackFromSDP and ResolveRTSPControlURL.
pub mod Track
use serviceradar_sdk_go.Base.{
  ℕ, ◌-◌, Bool, true, false, not, ◌&&◌, ◌||◌, List, [], ◌∷◌, ◌++◌, Option, none, some,
  if◌then◌else◌, null, length, take, Result, ok, err,
}
use serviceradar_sdk_go.Strings.{
  Bytes, str, ℤ, pos, eqℤ, has_prefix, has_suffix, contains, trim_prefix, cut, split, trim_space,
}
use serviceradar_sdk_go.Rtsp.Error.{RtspError, no_video_track}
use serviceradar_sdk_go.Rtsp.Auth.{RtspEndpoint}
use serviceradar_sdk_go.Rtsp.Response.{atoi_value}

pub record RtspH264Track : Type 0 where
  pub control_url : Bytes
  pub payload_type : ℤ

abbrev trim_slash : Bytes → Bytes
trim_slash s = if has_suffix s (str "/") then take (length s - 1) s else s

unfoldable pub resolve_rtsp_control_url : RtspEndpoint → Bytes → Bytes
resolve_rtsp_control_url endpoint control =
    let control = trim_space control in
    if null control
    then endpoint.request_uri
    else if has_prefix control (str "rtsp://") || has_prefix control (str "rtsps://")
    then control
    else if has_prefix control (str "/")
    then endpoint.base_url ++ control
    else endpoint.base_url ++ (trim_slash endpoint.request_uri ++ (str "/" ++ control))

-- What the loop has found in the media section that it is in.
pub record Scan : Type 0 where
  pub in_video : Bool
  pub payload_type : ℤ
  pub control : Bytes

abbrev pub start : Scan
start = record { in_video = false; payload_type = pos 0; control = [] }

abbrev pub is_rtpmap : Bytes → Bool
is_rtpmap line = has_prefix line (str "a=rtpmap:") && contains line (str "H264/90000")

-- The payload type of an rtpmap line, or the one so far where the line has no space.
abbrev pub rtpmap_type : Bytes → ℤ → ℤ
rtpmap_type line before =
    let (number, rest, found) = cut (trim_prefix line (str "a=rtpmap:")) (str " ") in
    if found then atoi_value number else before

unfoldable pub scan_line : Bytes → Scan → Scan
scan_line line s =
    if has_prefix line (str "m=video ")
    then record { in_video = true; payload_type = pos 0; control = [] }
    else if has_prefix line (str "m=")
    then record s { in_video = false }
    else if s.in_video && is_rtpmap line
    then record s { payload_type = rtpmap_type line s.payload_type }
    else if s.in_video && has_prefix line (str "a=control:")
    then record s { control = trim_space (trim_prefix line (str "a=control:")) }
    else s

abbrev pub is_complete : Scan → Bool
is_complete s = s.in_video && not (eqℤ s.payload_type (pos 0)) && not (null s.control)

unfoldable pub scan_lines : List Bytes → Scan → Option Scan
unfolding scan_line
scan_lines [] s = none
scan_lines (line ∷ lines) s =
    let s = scan_line (trim_space line) s in
    let rest = scan_lines lines s in if is_complete s then some s else rest

abbrev pub track_of : RtspEndpoint → Option Scan → Result RtspError RtspH264Track
track_of endpoint none = err no_video_track
track_of endpoint (some s) = ok (record {
  control_url = resolve_rtsp_control_url endpoint s.control;
  payload_type = s.payload_type;
})

unfoldable pub parse_h264_track_from_sdp : RtspEndpoint → Bytes → Result RtspError RtspH264Track
unfolding scan_lines
parse_h264_track_from_sdp endpoint body =
    track_of endpoint (scan_lines (split body (str "\n")) start)
