-- ===== src/Rtsp/H264.antt =====
-- sdk/rtsp.go, RTSPH264Depacketizer: H264 access units in Annex B form from RTP payloads (RFC
-- 6184). On a byte `b`, `b & 0x1F` is `b % 32`, `b & 0xE0` is `b / 32 * 32`, `b & 0x80 != 0` is
-- `128 <= b` and `b & 0x40 != 0` is `64 <= b % 128`.
-- Every fragment is a slice that `annexBUnit` has made, so no two of them share memory, and the
-- access unit is a copy: slices are values here.
pub mod Fragments
pub mod Aggregation
pub mod Invariant
use serviceradar_sdk_go.Base.{
  ℕ, zero, suc, ◌+◌, ◌*◌, ◌/◌, ◌%◌, Bool, true, false, not, ◌&&◌, ◌||◌, List, [], ◌∷◌, ◌++◌, ◌==◌,
  if◌then◌else◌, ltb, leb, length, take, drop,
}
use serviceradar_sdk_go.Strings.{Bytes}
use serviceradar_sdk_go.Rtsp.Error.{RtspError, payload_too_short, unsupported_nal, uint16}

pub record Depacketizer : Type 0 where
  pub sequence : ℕ
  pub timestamp : ℕ
  pub assembling : Bool
  pub fragments : List Bytes
  pub keyframe : Bool

-- The results of Push: (nil, false, false, nil), an access unit with its keyframe flag, an error.
pub data Pushed : Type 0 where
  pending : Pushed
  unit : Bytes → Bool → Pushed
  failed : RtspError → Pushed

abbrev pub annex_b_unit : Bytes → Bytes
annex_b_unit nal = 0 ∷ 0 ∷ 0 ∷ 1 ∷ nal

unfoldable pub join_fragments : List Bytes → Bytes
join_fragments [] = []
join_fragments (part ∷ parts) = part ++ join_fragments parts

-- `d.fragments[len(d.fragments)-1] = append(last, body...)`
unfoldable pub extend_last : List Bytes → Bytes → List Bytes
extend_last [] body = []
extend_last (last ∷ []) body = (last ++ body) ∷ []
extend_last (x ∷ y ∷ rest) body = x ∷ extend_last (y ∷ rest) body

-- A new access unit is begun at the first payload and wherever the timestamp changes.
abbrev pub begin : Depacketizer → ℕ → Depacketizer
begin d timestamp =
    if not d.assembling || not (d.timestamp == timestamp)
    then record d { fragments = []; keyframe = false; timestamp = timestamp; assembling = true }
    else d

-- The code behind the switch: at the marker the access unit is given out.
abbrev pub finish : Depacketizer → Bool → Pushed × Depacketizer
finish d marker =
    if marker
    then (
      unit (join_fragments d.fragments) d.keyframe,
      record d { fragments = []; keyframe = false; assembling = false },
    )
    else (pending, d)

abbrev pub add_unit : Depacketizer → Bytes → ℕ → Depacketizer
add_unit d nal header = record d {
  fragments = d.fragments ++ (annex_b_unit nal ∷ []);
  keyframe = d.keyframe || (header % 32 == 5);
}

-- The loop of nalType 24; the list is `payload[offset:]`, and each round takes two bytes of it.
-- The flag of the result says that the loop ended by its test and not by an error.
unfoldable pub stap_loop : ℕ → Bytes → Depacketizer → Bool × Depacketizer
stap_loop fuel [] d = (true, d)
stap_loop fuel (a ∷ []) d = (true, d)
stap_loop zero (a ∷ b ∷ []) d = (false, d)
stap_loop (suc fuel) (a ∷ b ∷ []) d = (false, d)
stap_loop zero (a ∷ b ∷ header ∷ nal) d = (false, d)
stap_loop (suc fuel) (a ∷ b ∷ header ∷ nal) d =
    let size = uint16 a b in
    let rest =
      stap_loop fuel (drop size (header ∷ nal)) (add_unit d (take size (header ∷ nal)) header) in
    if size == 0 || ltb (length (header ∷ nal)) size then (false, d) else rest

-- nalType 24, STAP-A: the payload behind the header byte
unfoldable pub push_stap : Depacketizer → Bytes → Bool → Pushed × Depacketizer
unfolding stap_loop
push_stap d body marker =
    let (done, d') = stap_loop (length body) body d in
    if done then finish d' marker else (failed payload_too_short, d')

-- nalType 28, FU-A: the payload behind the indicator byte
unfoldable pub push_fu : Depacketizer → ℕ → Bytes → Bool → Pushed × Depacketizer
unfolding extend_last
push_fu d indicator [] marker = (failed payload_too_short, d)
push_fu d indicator (header ∷ body) marker =
    let start = leb 128 header in
    let end = leb 64 (header % 128) in
    let nal_header = indicator / 32 * 32 + header % 32 in
    let keyframe = d.keyframe || (header % 32 == 5) in
    let started = record d {
      fragments = d.fragments ++ (annex_b_unit (nal_header ∷ body) ∷ []);
      keyframe = keyframe;
    } in
    let extended = record d { fragments = extend_last d.fragments body; keyframe = keyframe } in
    if start
    then (if not end && not marker then (pending, started) else finish started marker)
    else if ltb 0 (length d.fragments)
    then (if not end && not marker then (pending, extended) else finish extended marker)
    else (failed payload_too_short, d)

-- The switch on `payload[0] & 0x1F`.
unfoldable pub dispatch : Depacketizer → ℕ → Bytes → Bool → Pushed × Depacketizer
unfolding push_stap push_fu
dispatch d header body marker =
    let nal_type = header % 32 in
    if leb 1 nal_type && leb nal_type 23
    then finish (add_unit d (header ∷ body) header) marker
    else if nal_type == 24
    then push_stap d body marker
    else if nal_type == 28
    then push_fu d header body marker
    else (failed unsupported_nal, d)

pub push : Depacketizer → Bytes → Bool → ℕ → Pushed × Depacketizer
unfolding dispatch
push d [] marker timestamp = (failed payload_too_short, d)
push d (header ∷ body) marker timestamp = dispatch (begin d timestamp) header body marker

-- A depacketizer as Go's zero value.
abbrev pub fresh : Depacketizer
fresh = record { sequence = 0; timestamp = 0; assembling = false; fragments = []; keyframe = false }
