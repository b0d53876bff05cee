-- ===== src/Rtsp/H264/Aggregation.antt =====
-- STAP-A aggregation packets: several NAL units in one RTP payload.
use serviceradar_sdk_go.Base.{
  ℕ, zero, suc, ◌+◌, ◌%◌, ◌<◌, ◌≤◌, Bool, true, false, ◌||◌, List, [], ◌∷◌, ◌++◌, ◌≡◌, refl, ◌∙◌,
  arith, ltb, ◌==◌, append-nil, append_assoc, length, length-append, take-append, drop-append, All,
}
use serviceradar_sdk_go.Strings.{Bytes}
use serviceradar_sdk_go.Rtsp.Error.{put_uint16, uint16_put}
use serviceradar_sdk_go.Rtsp.H264.Fragments.{Begins}
use serviceradar_sdk_go.Rtsp.H264.{
  Depacketizer, unit, annex_b_unit, add_unit, join_fragments, stap_loop, begin, push,
}

-- A NAL unit with its header byte apart.
pub record Nal : Type 0 where
  pub header : ℕ
  pub body : Bytes

abbrev pub nal_bytes : Nal → Bytes
nal_bytes n = n.header ∷ n.body

abbrev pub FitsStap : Nal → Type 0
FitsStap n = length n.body < 65535

-- The aggregated units, each behind its length in 16 bits.
abbrev pub stap_bytes : List Nal → Bytes
stap_bytes [] = []
stap_bytes (n ∷ ns) = put_uint16 (length (nal_bytes n)) ++ (nal_bytes n ++ stap_bytes ns)

abbrev pub any_keyframe : List Nal → Bool
any_keyframe [] = false
any_keyframe (n ∷ ns) = (n.header % 32 == 5) || any_keyframe ns

abbrev pub all_units : List Nal → Bytes
all_units [] = []
all_units (n ∷ ns) = annex_b_unit (nal_bytes n) ++ all_units ns

-- What the loop adds to the state.
abbrev add_all : Depacketizer → List Nal → Depacketizer
add_all d [] = d
add_all d (n ∷ ns) = add_all (add_unit d (nal_bytes n) n.header) ns

room : (k m : ℕ) → (suc k == 0 || ltb (suc (k + m)) (suc k)) ≡ false
room k m = ground arith

stap_loop_lem :
    (ns : List Nal) (fuel : ℕ) (d : Depacketizer)
    → length ns ≤ fuel
    → All FitsStap ns
    → stap_loop fuel (stap_bytes ns) d ≡ (true, add_all d ns)
unfolding stap_loop
stap_loop_lem [] fuel d h v = refl
stap_loop_lem (n ∷ ns) zero d h v = absurd (omega arith)
stap_loop_lem (n ∷ ns) (suc fuel) d h v =
    let nal = nal_bytes n in
    let rest = stap_bytes ns in
    let ih = stap_loop_lem ns fuel (add_unit d nal n.header) (omega arith) v.1 in
    rw (uint16_put (suc (length n.body))) (
      rw (take-append n.body rest, drop-append n.body rest)
        (rw (length-append n.body rest) (rw (room (length n.body) (length rest)) ih)))

pub join_fragments-append :
    (xs ys : List Bytes) → join_fragments (xs ++ ys) ≡ join_fragments xs ++ join_fragments ys
unfolding join_fragments
join_fragments-append [] ys = refl
join_fragments-append (x ∷ xs) ys = simp (join_fragments-append xs ys, append_assoc)

join_fragments-add_all :
    (ns : List Nal) (d : Depacketizer)
    → join_fragments (add_all d ns).fragments ≡ join_fragments d.fragments ++ all_units ns
join_fragments-add_all [] d = rw append-nil
join_fragments-add_all (n ∷ ns) d =
    join_fragments-add_all ns (add_unit d (nal_bytes n) n.header)
    ∙ rw (join_fragments-append d.fragments (annex_b_unit (nal_bytes n) ∷ []))
        (unfold join_fragments in simp (append-nil, append_assoc))

keyframe-add_all :
    (ns : List Nal) (d : Depacketizer) → (add_all d ns).keyframe ≡ (d.keyframe || any_keyframe ns)
keyframe-add_all [] d = ground arith
keyframe-add_all (n ∷ ns) d = keyframe-add_all ns (add_unit d (nal_bytes n) n.header) ∙ ground arith

length-stap_bytes : (ns : List Nal) → length ns ≤ length (stap_bytes ns)
length-stap_bytes [] = omega arith
length-stap_bytes (n ∷ ns) =
    omega (arith, length-stap_bytes ns, length-append n.body (stap_bytes ns))

push_stap_begun :
    (ns : List Nal) (d : Depacketizer) (timestamp : ℕ)
    → All FitsStap ns
    → Begins d timestamp
    → (push d (24 ∷ stap_bytes ns) true timestamp).0
      ≡ unit
          (join_fragments (add_all (begin d timestamp) ns).fragments)
          (add_all (begin d timestamp) ns).keyframe
unfolding push
push_stap_begun ns d timestamp v b =
    rw (stap_loop_lem ns (length (stap_bytes ns)) (begin d timestamp) (length-stap_bytes ns) v)

-- An aggregation packet of NAL units of at most 65535 bytes that begins and ends an access unit
-- gives out these units, in order and each behind a start code; the access unit is a keyframe exactly if one of them has type 5.
pub push_aggregated :
    (ns : List Nal) (d : Depacketizer) (timestamp : ℕ)
    → All FitsStap ns
    → Begins d timestamp
    → (push d (24 ∷ stap_bytes ns) true timestamp).0 ≡ unit (all_units ns) (any_keyframe ns)
push_aggregated ns d timestamp v b =
    push_stap_begun ns d timestamp v b
    ∙ rw (join_fragments-add_all ns (begin d timestamp), keyframe-add_all ns (begin d timestamp))
        (unfold join_fragments in ground arith)
