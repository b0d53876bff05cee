-- ===== src/Tests/RtspText.antt =====
-- The text protocol of sdk/rtsp.go on small messages.
use serviceradar_sdk_go.Base.{List, [], ◌∷◌, ◌++◌, ◌≡◌, refl, none, arith, ok, err}
use serviceradar_sdk_go.Strings.{
  Bytes, str, pos, split, trim_space, to_lower, contains, cut, trim_prefix, has_suffix, atoi, equal,
}
use serviceradar_sdk_go.Maps.{Dict, insert, get}
use serviceradar_sdk_go.Rtsp.Auth.{RtspEndpoint, parse_rtsp_authenticate_header}
use serviceradar_sdk_go.Rtsp.Response.{parse_rtsp_response, atoi_value, read_header}
use serviceradar_sdk_go.Rtsp.Response.Print.{
  status_line, with_length, print_response, IsHeader, insert_all,
}
use serviceradar_sdk_go.Rtsp.Response.RoundTrip.{parse-print_response}
use serviceradar_sdk_go.Rtsp.Client.{RtspTransport, new_rtsp_client, round_trip, do_request}
use serviceradar_sdk_go.Rtsp.Client.Text.{request_text}
use serviceradar_sdk_go.Rtsp.Client.Exchange.{recorded, IsExchange, do_request-IsExchange}
use serviceradar_sdk_go.Rtsp.Sdp.{
  RtspH264Track, Scan, parse_h264_track_from_sdp, resolve_rtsp_control_url,
}
use serviceradar_sdk_go.Rtsp.Sdp.Track.{IsTrack, found_track, parse_h264_track_from_sdp-IsTrack}

abbrev endpoint : RtspEndpoint
endpoint = record {
  raw_url = str "rtsp://cam/live";
  scheme = str "rtsp";
  host = str "cam";
  port = 554;
  request_uri = str "/live";
  base_url = str "rtsp://cam";
  username = str "u";
  password = str "p";
}

abbrev sdp : Bytes
sdp =
    str
      "v=0\nm=audio 0 RTP/AVP 0\na=control:a\nm=video 0 RTP/AVP 96\na=rtpmap:96 H264/90000\na=control:v\n"

abbrev track : RtspH264Track
track = record { control_url = str "rtsp://cam/live/v"; payload_type = pos 96 }

track_selected : parse_h264_track_from_sdp endpoint sdp ≡ ok track
unfolding parse_h264_track_from_sdp split trim_space contains cut trim_prefix atoi_value
    resolve_rtsp_control_url has_suffix
track_selected = refl

parse_h264_track_from_sdp-IsTrack_example :
    (s : Scan) × IsTrack (split sdp (str "\n")) s × (found_track endpoint s ≡ track)
parse_h264_track_from_sdp-IsTrack_example =
    parse_h264_track_from_sdp-IsTrack endpoint sdp track track_selected

content_type-IsHeader : IsHeader (str "content-type", str "application/sdp")
unfolding trim_space to_lower
content_type-IsHeader = record {
  key_line = (
    refl,
    (refl, (refl, (refl, (refl, (refl, (refl, (refl, (refl, (refl, (refl, (refl, tt))))))))))),
  );
  key_colon = (
    refl,
    (refl, (refl, (refl, (refl, (refl, (refl, (refl, (refl, (refl, (refl, (refl, tt))))))))))),
  );
  key_given = refl;
  key_trimmed = refl;
  key_lower = refl;
  value_line = (
    refl,
    (
      refl,
      (
        refl,
        (
          refl,
          (
            refl,
            (refl, (refl, (refl, (refl, (refl, (refl, (refl, (refl, (refl, (refl, tt)))))))))),
          ),
        ),
      ),
    ),
  );
  value_trimmed = refl;
}

abbrev headers : Dict Bytes
headers = (str "content-type", str "application/sdp") ∷ []

parse-print_response_example :
    parse_rtsp_response (print_response 200 (str "OK") headers (str "v=0") ++ str "$more")
    ≡ ok (record {
      status_code = pos 200;
      status_line = status_line 200 (str "OK");
      headers = insert_all (with_length headers (str "v=0")) [];
      body = str "v=0";
      content_length = pos 3;
    })
parse-print_response_example =
    parse-print_response 200 (str "OK") headers (str "v=0") (str "$more") (ground arith)
      (ground arith) refl (refl, (refl, tt)) (content_type-IsHeader, tt)

-- A camera that answers each read with the next of its texts.
abbrev camera : RtspTransport Unit (List Bytes)
camera = record {
  write_bytes = λ request s. (none, s);
  read_bytes = λ size s. elim s [ [] ↦ (err tt, []) | t ∷ ts ↦ (ok t, ts) ];
}

abbrev answers : List Bytes
answers =
    str "RTSP/1.0 401 Unauthorized\r\nWWW-Authenticate: Basic realm=\"c\"\r\n\r\n"
    ∷ str "RTSP/1.0 200 OK\r\n\r\n"
    ∷ []

abbrev same : Bytes → Bytes
same s = s

do_request-IsExchange_example :
    IsExchange same same camera
      (new_rtsp_client endpoint)
      (str "OPTIONS")
      (str "/live")
      []
      []
      (round_trip
        (recorded camera)
        (request_text same same (new_rtsp_client endpoint) (str "OPTIONS") (str "/live") [] 1 none)
        (answers, [])).0
      (do_request same same
        (recorded camera)
        (new_rtsp_client endpoint)
        (str "OPTIONS")
        (str "/live")
        []
        (answers, []))
do_request-IsExchange_example =
    do_request-IsExchange same same camera (new_rtsp_client endpoint) (str "OPTIONS") (str "/live")
      [] [] answers

challenged :
    (do_request same same
      (recorded camera)
      (new_rtsp_client endpoint)
      (str "OPTIONS")
      (str "/live")
      []
      (answers, [])).1.0.seq
    ≡ 3
unfolding do_request parse_rtsp_response cut split atoi parse_rtsp_authenticate_header trim_space
    get read_header insert equal to_lower
challenged = refl
