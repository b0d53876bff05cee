-- ===== src/Rtsp/Sdp/Track.antt =====
-- sdk/rtsp.go: which track ParseH264TrackFromSDP selects.
use serviceradar_sdk_go.Base.{
  Bool, true, false, not, ◌&&◌, List, [], ◌∷◌, ◌++◌, ◌≡◌, refl, sym, ap, ◌∙◌, inl, inr, some,
  if◌then◌else◌, null, All, append_assoc, arith, Bool-cases, Option-cases, Result, ok, err, ◌==◌,
  ◌||◌, length, drop, ◌-◌, take,
}
use mathlib.Core.Path.{subst}
use mathlib.Core.Option.{some-injective}
use serviceradar_sdk_go.Strings.{
  Bytes, str, ℤ, pos, eqℤ, has_prefix, trim_space, trim_prefix, has_suffix, split, contains, cut,
}
use serviceradar_sdk_go.Rtsp.Error.{RtspError}
use serviceradar_sdk_go.Rtsp.Auth.{RtspEndpoint}
use serviceradar_sdk_go.Rtsp.Sdp.{
  RtspH264Track, Scan, start, rtpmap_type, scan_line, is_complete, scan_lines,
  resolve_rtsp_control_url, track_of, parse_h264_track_from_sdp,
}
use serviceradar_sdk_go.Rtsp.Response.{atoi_value}

abbrev rtpmap_prefix : Bytes
rtpmap_prefix = str "a=rtpmap:"

abbrev is_h264 : Bytes → Bool
is_h264 line = has_prefix line rtpmap_prefix && contains line (str "H264/90000")

abbrev is_control : Bytes → Bool
is_control line = not (is_h264 line) && has_prefix line (str "a=control:")

-- The bytes before the first space
abbrev word : Bytes → Bytes
word [] = []
word (c ∷ s) = if c == b' ' then [] else c ∷ word s

abbrev has_space : Bytes → Bool
has_space [] = false
has_space (c ∷ s) = (c == b' ') || has_space s

-- The number before the first space of an H264 rtpmap line; a line without a space has none.
abbrev line_type : Bytes → ℤ → ℤ
line_type line before =
    let s = drop (length rtpmap_prefix) line in if has_space s then atoi_value (word s) else before

cut-space : (s : Bytes) → (cut s (str " ")).0 ≡ word s × (cut s (str " ")).2 ≡ has_space s
unfolding cut has_prefix
cut-space [] = (refl, refl)
cut-space (c ∷ s) = ground (arith, cut-space s)

rtpmap_type_lem :
    (line : Bytes) (before : ℤ)
    → is_h264 line ≡ true
    → rtpmap_type line before ≡ line_type line before
unfolding trim_prefix
rtpmap_type_lem line before h =
    let p : has_prefix line rtpmap_prefix ≡ true = ground arith in
    let s = drop (length rtpmap_prefix) line in rw (p, (cut-space s).0, (cut-space s).1) refl

-- The payload type of the last H264 rtpmap line of a section, and the control of its last control
-- line.
abbrev type_in : List Bytes → ℤ → ℤ
type_in [] t = t
type_in (l ∷ ls) t = type_in ls (if is_h264 (trim_space l) then line_type (trim_space l) t else t)

abbrev control_in : List Bytes → Bytes → Bytes
control_in [] c = c
control_in (l ∷ ls) c = control_in ls (
    if is_control (trim_space l)
    then trim_space (trim_prefix (trim_space l) (str "a=control:"))
    else c)

-- The lines end within a video section that has the type and the control.
pub record IsSection (lines : List Bytes) (payload_type : ℤ) (control : Bytes) : Type 0 where
  pub before : List Bytes
  pub head : Bytes
  pub section : List Bytes
  pub parts : lines ≡ before ++ (head ∷ section)
  pub opens : has_prefix (trim_space head) (str "m=video ") ≡ true
  pub stays : All (λ l. has_prefix (trim_space l) (str "m=") ≡ false) section
  pub type_found : payload_type ≡ type_in section (pos 0)
  pub control_found : control ≡ control_in section []

abbrev Tracks : List Bytes → Scan → Type 0
Tracks seen s = s.in_video ≡ true → IsSection seen s.payload_type s.control

type_in-snoc :
    (ls : List Bytes) (l : Bytes) (t : ℤ)
    → type_in (ls ++ (l ∷ [])) t
      ≡ (if is_h264 (trim_space l) then line_type (trim_space l) (type_in ls t) else type_in ls t)
type_in-snoc [] l t = refl
type_in-snoc (k ∷ ls) l t = type_in-snoc ls l _

control_in-snoc :
    (ls : List Bytes) (l c : Bytes)
    → control_in (ls ++ (l ∷ [])) c ≡ (
        if is_control (trim_space l)
        then trim_space (trim_prefix (trim_space l) (str "a=control:"))
        else control_in ls c)
control_in-snoc [] l c = refl
control_in-snoc (k ∷ ls) l c = control_in-snoc ls l _

All-snoc :
    (ls : List Bytes) (l : Bytes)
    → All (λ x. has_prefix (trim_space x) (str "m=") ≡ false) ls
    → has_prefix (trim_space l) (str "m=") ≡ false
    → All (λ x. has_prefix (trim_space x) (str "m=") ≡ false) (ls ++ (l ∷ []))
All-snoc [] l a h = (h, tt)
All-snoc (k ∷ ls) l (a, rest) h = (a, All-snoc ls l rest h)

-- A section goes on with a line that is no media line.
IsSection-snoc :
    (seen : List Bytes) (l : Bytes) (t : ℤ) (c : Bytes)
    → IsSection seen t c
    → has_prefix (trim_space l) (str "m=") ≡ false
    → IsSection
        (seen ++ (l ∷ []))
        (if is_h264 (trim_space l) then line_type (trim_space l) t else t)
        (if is_control (trim_space l)
          then trim_space (trim_prefix (trim_space l) (str "a=control:"))
          else c)
IsSection-snoc seen l t c i h = record {
  before = i.before;
  head = i.head;
  section = i.section ++ (l ∷ []);
  parts = ap (λ x. x ++ (l ∷ [])) i.parts ∙ append_assoc i.before (i.head ∷ i.section) (l ∷ []);
  opens = i.opens;
  stays = All-snoc i.section l i.stays h;
  type_found = rw (i.type_found, type_in-snoc i.section l (pos 0)) refl;
  control_found = rw (i.control_found, control_in-snoc i.section l []) refl;
}

scan_line-Tracks :
    (seen : List Bytes) (l : Bytes) (s : Scan)
    → Tracks seen s
    → Tracks (seen ++ (l ∷ [])) (scan_line (trim_space l) s)
unfolding scan_line
scan_line-Tracks seen l s t = elim (Bool-cases (has_prefix (trim_space l) (str "m=video "))) [
  | inl v ↦ rw v (λ e. record {
    before = seen;
    head = l;
    section = [];
    parts = refl;
    opens = v;
    stays = tt;
    type_found = refl;
    control_found = refl;
  })
  | inr v ↦ elim (Bool-cases (has_prefix (trim_space l) (str "m="))) [
    | inl m ↦ rw (v, m) (λ e. absurd cc)
    | inr m ↦ elim (Bool-cases s.in_video) [
      | inr o ↦ rw (v, m, o) (λ e. absurd (cc))
      | inl o ↦
          let i = IsSection-snoc seen l s.payload_type s.control (t o) m in
          elim (Bool-cases (is_h264 (trim_space l))) [
            | inl r ↦
                rw (v, m, o, r, rtpmap_type_lem (trim_space l) s.payload_type r) (λ e. rw r at i)
            | inr r ↦ elim (Bool-cases (has_prefix (trim_space l) (str "a=control:"))) [
              | inl c ↦ rw (v, m, o, r, c) (λ e. rw (r, c) at i)
              | inr c ↦ rw (v, m, o, r, c) (λ e. rw (r, c) at i)
            ]
          ]
    ]
  ]
]

-- A track has been found within a section of the lines, with a payload type and a control.
pub record IsTrack (lines : List Bytes) (s : Scan) : Type 0 where
  pub read : List Bytes
  pub later : List Bytes
  pub whole : lines ≡ read ++ later
  pub typed : eqℤ s.payload_type (pos 0) ≡ false
  pub controlled : null s.control ≡ false
  pub selected : IsSection read s.payload_type s.control

scan_lines-IsTrack :
    (seen lines : List Bytes) (s found : Scan)
    → Tracks seen s
    → scan_lines lines s ≡ some found
    → IsTrack (seen ++ lines) found
unfolding scan_lines
scan_lines-IsTrack seen [] s found t e = absurd cc
scan_lines-IsTrack seen (l ∷ lines) s found t e =
    let next = scan_line (trim_space l) s in
    let u = scan_line-Tracks seen l s t in
    elim (Bool-cases (is_complete next)) [
      | inl d ↦
          subst (IsTrack (seen ++ (l ∷ lines))) (some-injective next found (rw d at e)) (record {
            read = seen ++ (l ∷ []);
            later = lines;
            whole = sym (append_assoc seen (l ∷ []) lines);
            typed = ground arith;
            controlled = ground arith;
            selected = u (ground arith);
          })
      | inr d ↦
          subst (λ x. IsTrack x found) (append_assoc seen (l ∷ []) lines)
            (scan_lines-IsTrack (seen ++ (l ∷ [])) lines next found u (rw d at e))
    ]

abbrev is_absolute : Bytes → Bool
is_absolute url = has_prefix url (str "rtsp://") || has_prefix url (str "rtsps://")

abbrev without_slash : Bytes → Bytes
without_slash s = if has_suffix s (str "/") then take (length s - 1) s else s

-- The URL of a control: itself where it is absolute, behind the base URL where it is a rooted path,
-- and else behind the request URI, between which and it there is one slash.
abbrev resolved : RtspEndpoint → Bytes → Bytes
resolved endpoint given =
    let control = trim_space given in
    if null control
    then endpoint.request_uri
    else if is_absolute control
    then control
    else endpoint.base_url
      ++ (if has_prefix control (str "/")
          then control
          else without_slash endpoint.request_uri ++ (str "/" ++ control))

resolved_lem :
    (endpoint : RtspEndpoint) (given : Bytes)
    → resolve_rtsp_control_url endpoint given ≡ resolved endpoint given
unfolding resolve_rtsp_control_url
resolved_lem endpoint given = ground arith

abbrev pub found_track : RtspEndpoint → Scan → RtspH264Track
found_track endpoint s = record {
  control_url = resolved endpoint s.control;
  payload_type = s.payload_type;
}

abbrev failure : RtspError → Result RtspError RtspH264Track
failure e = err e

abbrev success : RtspH264Track → Result RtspError RtspH264Track
success track = ok track

-- A track that is selected: some lines of the body, from its beginning, end in a media section that
-- a video line opens and that no other media line has closed; the payload type, which is not 0, is
-- the number before the first space of the last H264 rtpmap line with a space in the section, and
-- the URL is the resolved value of its last control line, which is not empty.
pub parse_h264_track_from_sdp-IsTrack :
    (endpoint : RtspEndpoint) (body : Bytes) (track : RtspH264Track)
    → parse_h264_track_from_sdp endpoint body ≡ ok track
    → (s : Scan) × IsTrack (split body (str "\n")) s × (found_track endpoint s ≡ track)
unfolding parse_h264_track_from_sdp
parse_h264_track_from_sdp-IsTrack endpoint body track e =
    elim (Option-cases (scan_lines (split body (str "\n")) start)) [
      | inl n ↦ absurd (clash (rw (track_of, n) at e))
      | inr (s, f) ↦ (
        s,
        scan_lines-IsTrack [] (split body (str "\n")) start s (λ p. absurd cc) f,
        same (rw (track_of, f, resolved_lem endpoint s.control) at e),
      )
    ]
  where
    clash : {x : RtspError} → failure x ≡ success track → ⊥
    clash e = cc

    same : {x : RtspH264Track} → success x ≡ success track → x ≡ track
    same {x} e = ap (λ r. elim r [ ok y ↦ y | err z ↦ x ]) e
