-- ===== src/Rtsp/Packet/RoundTrip.antt =====
-- A packet laid out as RFC 3550 says is read back by ParseRTPPacket.
use native.Mathlib.Nat.{zero-add, suc-add, add_comm}
use serviceradar_sdk_go.Base.{
  ℕ, ◌+◌, ◌*◌, ◌/◌, ◌%◌, ◌<◌, Bool, true, false, [], ◌∷◌, ◌++◌, ◌≡◌, ap, sym, ◌∙◌, arith,
  if◌then◌else◌, length, drop, get_or, length-append, drop-append, ok,
}
use serviceradar_sdk_go.Strings.{Bytes}
use serviceradar_sdk_go.Rtsp.Error.{uint32, put_uint16, put_uint32}
use serviceradar_sdk_go.Rtsp.Packet.{RtpPayload, parse_rtp_packet}

-- What an RTP header holds beside the payload. `version` stands for the three bits of version
-- and padding, `csrcs` and `extension` are whole 32-bit words.
pub record Header : Type 0 where
  pub version : ℕ
  pub payload_type : ℕ
  pub sequence : ℕ
  pub ssrc : Bytes
  pub csrc_count : ℕ
  pub csrcs : Bytes

pub record IsHeader (h : Header) : Type 0 where
  pub version_fits : h.version < 8
  pub type_fits : h.payload_type < 128
  pub ssrc_fits : length h.ssrc ≡ 4
  pub count_fits : h.csrc_count < 16
  pub csrcs_fit : length h.csrcs ≡ h.csrc_count * 4

abbrev flag : Bool → ℕ → ℕ
flag b n = if b then n else 0

-- The twelve bytes of the fixed header.
abbrev fixed_bytes : Header → Bool → RtpPayload → Bytes
fixed_bytes h extended p =
    (h.version * 32 + flag extended 16 + h.csrc_count)
    ∷ (flag p.marker 128 + h.payload_type)
    ∷ (put_uint16 h.sequence ++ (put_uint32 p.timestamp ++ h.ssrc))

-- A packet without a header extension.
abbrev pub packet_bytes : Header → RtpPayload → Bytes
packet_bytes h p = (fixed_bytes h false p ++ h.csrcs) ++ p.payload

-- An extension: its profile, its length in words, its words.
abbrev extension_bytes : ℕ → ℕ → Bytes → Bytes
extension_bytes profile words extension =
    profile / 256 ∷ profile % 256 ∷ words / 256 ∷ words % 256 ∷ extension

-- A packet with a header extension.
abbrev pub extended_bytes : Header → ℕ → ℕ → Bytes → RtpPayload → Bytes
extended_bytes h profile words extension p =
    (fixed_bytes h true p ++ h.csrcs) ++ (extension_bytes profile words extension ++ p.payload)

drop-append_at : (n : ℕ) (xs ys : Bytes) → length xs ≡ n → drop n (xs ++ ys) ≡ ys
drop-append_at n xs ys h = ap (λ k. drop k (xs ++ ys)) (sym h) ∙ drop-append xs ys

uint32_put :
    (n : ℕ) → n < 4294967296 → uint32 (n / 16777216) (n / 65536 % 256) (n / 256 % 256) (n % 256) ≡ n
uint32_put n h = omega arith

length-fixed_bytes :
    (h : Header) (b : Bool) (p : RtpPayload) → IsHeader h → length (fixed_bytes h b p) ≡ 12
length-fixed_bytes h b p v = omega (arith, v.ssrc_fits)

-- ParseRTPPacket gives back the payload, marker and timestamp of every packet whose header fields and
-- timestamp fit their bits and that carries no header extension.
pub parse-packet_bytes :
    (h : Header) (p : RtpPayload)
    → IsHeader h
    → p.timestamp < 4294967296
    → parse_rtp_packet (packet_bytes h p) ≡ ok p
unfolding parse_rtp_packet
parse-packet_bytes h p v t =
    let before = fixed_bytes h false p ++ h.csrcs in
    let size : length before ≡ 12 + h.csrc_count * 4 = omega (
      arith,
      length-append (fixed_bytes h false p) h.csrcs,
      length-fixed_bytes h false p v,
      v.csrcs_fit,
    ) in
    ground (
      arith,
      v.count_fits,
      v.version_fits,
      v.type_fits,
      size,
      length-append before p.payload,
      drop-append_at (12 + h.csrc_count * 4) before p.payload size,
      uint32_put p.timestamp t,
    )

drop-append_more : (n k : ℕ) (xs ys : Bytes) → length xs ≡ n → drop (n + k) (xs ++ ys) ≡ drop k ys
drop-append_more n k xs ys h = rw (← h) (go xs)
  where
    go : (zs : Bytes) → drop (length zs + k) (zs ++ ys) ≡ drop k ys
    go [] = rw zero-add
    go (z ∷ zs) = rw suc-add (go zs)

get_or-append_more :
    (n k : ℕ) (xs ys : Bytes) → length xs ≡ n → get_or (xs ++ ys) (n + k) 0 ≡ get_or ys k 0
get_or-append_more n k xs ys h = rw (← h) (go xs)
  where
    go : (zs : Bytes) → get_or (zs ++ ys) (length zs + k) 0 ≡ get_or ys k 0
    go [] = rw zero-add
    go (z ∷ zs) = rw suc-add (go zs)

-- The header extension of a packet is skipped whole, whatever it holds, where its length is less than
-- 65536 words and the header fields and the timestamp fit their bits.
pub parse-extended_bytes :
    (h : Header) (profile words : ℕ) (extension : Bytes) (p : RtpPayload)
    → IsHeader h
    → p.timestamp < 4294967296
    → words < 65536
    → length extension ≡ words * 4
    → parse_rtp_packet (extended_bytes h profile words extension p) ≡ ok p
unfolding parse_rtp_packet
parse-extended_bytes h profile words extension p v t w e =
    let before = fixed_bytes h true p ++ h.csrcs in
    let after = extension_bytes profile words extension ++ p.payload in
    let offset : ℕ = 12 + h.csrc_count * 4 in
    let size : length before ≡ offset = omega (
      arith,
      length-append (fixed_bytes h true p) h.csrcs,
      length-fixed_bytes h true p v,
      v.csrcs_fit,
    ) in
    ground (
      arith,
      v.count_fits,
      v.version_fits,
      v.type_fits,
      size,
      length-append before after,
      length-append extension p.payload,
      get_or-append_more offset 2 before after size,
      get_or-append_more offset 3 before after size,
      drop-append_more offset (4 + words * 4) before after size,
      drop-append_at (words * 4) extension p.payload e,
      add_comm 4 (words * 4),
      uint32_put p.timestamp t,
    )
