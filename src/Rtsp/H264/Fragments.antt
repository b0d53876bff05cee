-- ===== src/Rtsp/H264/Fragments.antt =====
-- FU-A fragmentation units: what the depacketizer makes of a NAL unit that a camera has split
-- over several RTP packets of one timestamp.
use serviceradar_sdk_go.Base.{
  ℕ, ◌+◌, ◌*◌, ◌<◌, Bool, true, false, ◌⊎◌, List, [], ◌∷◌, ◌++◌, ◌≡◌, ◌≢◌, ◌∙◌, arith, ◌==◌,
  append-nil, append_assoc,
}
use serviceradar_sdk_go.Strings.{Bytes}
use serviceradar_sdk_go.Rtsp.H264.{Depacketizer, unit, annex_b_unit, join_fragments, push}

-- The NAL header that is split: its first three bits, and its type.
pub record NalHeader : Type 0 where
  pub high : ℕ
  pub kind : ℕ

pub record IsNalHeader (n : NalHeader) : Type 0 where
  pub high_fits : n.high < 8
  pub kind_fits : n.kind < 32

-- A fragment: the indicator byte, the fragment's header with its start and end bits, the bytes.
abbrev pub fu_payload : NalHeader → ℕ → Bytes → Bytes
fu_payload n bits body = (n.high * 32 + 28) ∷ (bits + n.kind) ∷ body

abbrev pub start_bit : ℕ
start_bit = 128

abbrev pub end_bit : ℕ
end_bit = 64

-- The state after the fragments between the first and the last.
abbrev pub feed : NalHeader → ℕ → Depacketizer → List Bytes → Depacketizer
feed n timestamp d [] = d
feed n timestamp d (body ∷ bodies) =
    feed n timestamp (push d (fu_payload n 0 body) false timestamp).1 bodies

abbrev pub concat : List Bytes → Bytes
concat [] = []
concat (b ∷ bs) = b ++ concat bs

-- A new access unit begins.
abbrev pub Begins : Depacketizer → ℕ → Type 0
Begins d timestamp = (d.assembling ≡ false) ⊎ (d.timestamp ≢ timestamp)

abbrev holding : Depacketizer → ℕ → Bytes → Bool → Depacketizer
holding d timestamp fragment keyframe = record {
  sequence = d.sequence;
  timestamp = timestamp;
  assembling = true;
  fragments = fragment ∷ [];
  keyframe = keyframe;
}

push_start :
    (n : NalHeader) (d : Depacketizer) (timestamp : ℕ) (body : Bytes)
    → IsNalHeader n
    → Begins d timestamp
    → (push d (fu_payload n start_bit body) false timestamp).1
      ≡ holding d timestamp (annex_b_unit ((n.high * 32 + n.kind) ∷ body)) (n.kind == 5)
unfolding push
push_start n d timestamp body v b = ground (arith, v.high_fits, v.kind_fits)

push_middle :
    (n : NalHeader) (d : Depacketizer) (timestamp : ℕ) (fragment body : Bytes)
    → IsNalHeader n
    → (push (holding d timestamp fragment (n.kind == 5)) (fu_payload n 0 body) false timestamp).1
      ≡ holding d timestamp (fragment ++ body) (n.kind == 5)
unfolding push
push_middle n d timestamp fragment body v = ground (arith, v.high_fits, v.kind_fits)

feed_lem :
    (n : NalHeader) (d : Depacketizer) (timestamp : ℕ) (fragment : Bytes) (bodies : List Bytes)
    → IsNalHeader n
    → feed n timestamp (holding d timestamp fragment (n.kind == 5)) bodies
      ≡ holding d timestamp (fragment ++ concat bodies) (n.kind == 5)
feed_lem n d timestamp fragment [] v = rw append-nil
feed_lem n d timestamp fragment (b ∷ bs) v =
    rw (push_middle n d timestamp fragment b v)
      (feed_lem n d timestamp (fragment ++ b) bs v ∙ rw append_assoc)

push_end :
    (n : NalHeader) (d : Depacketizer) (timestamp : ℕ) (fragment body : Bytes)
    → IsNalHeader n
    → (push
        (holding d timestamp fragment (n.kind == 5))
        (fu_payload n end_bit body)
        true
        timestamp).0
      ≡ unit (fragment ++ body) (n.kind == 5)
unfolding push join_fragments
push_end n d timestamp fragment body v =
    ground (arith, v.high_fits, v.kind_fits, append-nil (fragment ++ body))

-- A NAL unit, whose header byte has three high bits and a type below 32, that is split into a first, any number of middle and a last fragment, all of one
-- timestamp that begins a new access unit, comes out whole behind one start code, and it is
-- marked as a keyframe exactly if its type is 5.
pub push_fragmented :
    (n : NalHeader) (d : Depacketizer) (timestamp : ℕ) (first : Bytes) (middle : List Bytes)
    (last : Bytes)
    → IsNalHeader n
    → Begins d timestamp
    → (push
        (feed n timestamp (push d (fu_payload n start_bit first) false timestamp).1 middle)
        (fu_payload n end_bit last)
        true
        timestamp).0
      ≡ unit
          (annex_b_unit ((n.high * 32 + n.kind) ∷ ((first ++ concat middle) ++ last)))
          (n.kind == 5)
push_fragmented n d timestamp first middle last v b =
    let head = annex_b_unit ((n.high * 32 + n.kind) ∷ first) in
    rw (push_start n d timestamp first v b) (
      rw (feed_lem n d timestamp head middle v)
        (push_end n d timestamp (head ++ concat middle) last v))
