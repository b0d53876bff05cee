-- ===== src/Tests/Rtsp.antt =====
-- sdk/rtsp.go on small packets.
use serviceradar_sdk_go.Base.{true, false, List, [], ◌∷◌, ◌≡◌, refl, inl, inr, arith, ok}
use serviceradar_sdk_go.Rtsp.Interleaved.{
  InterleavedFrame, parse_interleaved_frame, parse-frame_bytes,
}
use serviceradar_sdk_go.Rtsp.Packet.{RtpPayload, parse_rtp_packet}
use serviceradar_sdk_go.Rtsp.Packet.RoundTrip.{
  Header, packet_bytes, extended_bytes, parse-packet_bytes, parse-extended_bytes,
}
use serviceradar_sdk_go.Rtsp.H264.{Depacketizer, unit, push, fresh, annex_b_unit}
use serviceradar_sdk_go.Rtsp.H264.Fragments.{
  NalHeader, fu_payload, feed, start_bit, end_bit, push_fragmented,
}
use serviceradar_sdk_go.Rtsp.H264.Aggregation.{Nal, push_aggregated}
use serviceradar_sdk_go.Rtsp.H264.Invariant.{Leaves, push-IsValid, push-Begins}

abbrev frame : InterleavedFrame
frame = record { channel = 0; payload = 7 ∷ 8 ∷ [] }

parse-frame_bytes_example : parse_interleaved_frame (b'$' ∷ 0 ∷ 0 ∷ 2 ∷ 7 ∷ 8 ∷ 9 ∷ []) ≡ ok frame
parse-frame_bytes_example = parse-frame_bytes frame (9 ∷ []) (ground arith)

abbrev header : Header
header = record {
  version = 4;
  payload_type = 96;
  sequence = 258;
  ssrc = 1 ∷ 2 ∷ 3 ∷ 4 ∷ [];
  csrc_count = 1;
  csrcs = 5 ∷ 6 ∷ 7 ∷ 8 ∷ [];
}

abbrev payload : RtpPayload
payload = record { payload = 9 ∷ 10 ∷ []; marker = true; timestamp = 66051 }

parse-packet_bytes_example : parse_rtp_packet (packet_bytes header payload) ≡ ok payload
parse-packet_bytes_example =
    parse-packet_bytes header payload
      (record {
        version_fits = ground arith;
        type_fits = ground arith;
        ssrc_fits = refl;
        count_fits = ground arith;
        csrcs_fit = refl;
      })
      (ground arith)

parse-extended_bytes_example :
    parse_rtp_packet (extended_bytes header 48862 1 (0 ∷ 0 ∷ 0 ∷ 0 ∷ []) payload) ≡ ok payload
parse-extended_bytes_example =
    parse-extended_bytes header 48862 1 (0 ∷ 0 ∷ 0 ∷ 0 ∷ []) payload
      (record {
        version_fits = ground arith;
        type_fits = ground arith;
        ssrc_fits = refl;
        count_fits = ground arith;
        csrcs_fit = refl;
      })
      (ground arith) (ground arith) refl

abbrev keyframe : NalHeader
keyframe = record { high = 3; kind = 5 }

push_fragmented_example :
    (push
      (feed keyframe 7
        (push fresh (fu_payload keyframe start_bit (1 ∷ 2 ∷ [])) false 7).1
        ((3 ∷ []) ∷ []))
      (fu_payload keyframe end_bit (4 ∷ []))
      true
      7).0
    ≡ unit (0 ∷ 0 ∷ 0 ∷ 1 ∷ 101 ∷ 1 ∷ 2 ∷ 3 ∷ 4 ∷ []) true
push_fragmented_example =
    push_fragmented keyframe fresh 7 (1 ∷ 2 ∷ []) ((3 ∷ []) ∷ []) (4 ∷ [])
      (record { high_fits = ground arith; kind_fits = ground arith }) (inl refl)

abbrev two_units : List Nal
two_units = record { header = 103; body = 1 ∷ [] } ∷ record { header = 101; body = 2 ∷ 3 ∷ [] } ∷ []

push_aggregated_example :
    (push fresh (24 ∷ 0 ∷ 2 ∷ 103 ∷ 1 ∷ 0 ∷ 3 ∷ 101 ∷ 2 ∷ 3 ∷ []) true 7).0
    ≡ unit (0 ∷ 0 ∷ 0 ∷ 1 ∷ 103 ∷ 1 ∷ 0 ∷ 0 ∷ 0 ∷ 1 ∷ 101 ∷ 2 ∷ 3 ∷ []) true
push_aggregated_example =
    push_aggregated two_units fresh 7 (ground arith, (ground arith, tt)) (inl refl)

abbrev within : Depacketizer
within = record {
  sequence = 0;
  timestamp = 7;
  assembling = true;
  fragments = annex_b_unit (101 ∷ 1 ∷ []) ∷ [];
  keyframe = true;
}

push-IsValid_example : Leaves (push within (28 ∷ 5 ∷ 2 ∷ []) true 7)
push-IsValid_example =
    push-IsValid within (28 ∷ 5 ∷ 2 ∷ []) true 7
      (record { units = ((101 ∷ 1 ∷ [], refl), tt); idle = λ e. cc })

push-Begins_example : (push within (103 ∷ 2 ∷ []) true 8).0 ≡ (push fresh (103 ∷ 2 ∷ []) true 8).0
push-Begins_example = push-Begins within (103 ∷ 2 ∷ []) true 8 (inr (λ e. omega (arith, e)))
