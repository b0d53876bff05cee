-- ===== src/Rtsp/H264/Invariant.antt =====
-- The state of the depacketizer between calls of Push.
use serviceradar_sdk_go.Base.{
  ℕ, zero, suc, ◌+◌, ◌*◌, ◌%◌, ◌/◌, Bool, true, false, not, ◌||◌, ◌&&◌, leb, List, [], ◌∷◌, ◌++◌,
  ◌≡◌, refl, ap, inl, inr, arith, if◌then◌else◌, ◌==◌, ltb, length, take, drop, All, Bool-cases,
}
use serviceradar_sdk_go.Strings.{Bytes}
use serviceradar_sdk_go.Rtsp.Error.{RtspError, payload_too_short, unsupported_nal}
use serviceradar_sdk_go.Rtsp.H264.Fragments.{Begins}
use serviceradar_sdk_go.Rtsp.H264.{
  Depacketizer, Pushed, pending, unit, failed, annex_b_unit, add_unit, extend_last, stap_loop,
  push_stap, push_fu, dispatch, begin, finish, push, fresh,
}

-- A fragment begins with the Annex B start code.
abbrev pub IsUnit : Bytes → Type 0
IsUnit f = (nal : Bytes) × (f ≡ annex_b_unit nal)

-- Between calls the fragments are Annex B units, and there are none outside an access unit.
pub record IsValid (d : Depacketizer) : Type 0 where
  pub units : All IsUnit d.fragments
  pub idle : d.assembling ≡ false → (d.fragments ≡ []) × (d.keyframe ≡ false)

All-concat :
    (fs : List Bytes) (nal : Bytes) → All IsUnit fs → All IsUnit (fs ++ annex_b_unit nal ∷ [])
All-concat [] nal h = ((nal, refl), tt)
All-concat (f ∷ fs) nal h = (h.0, All-concat fs nal h.1)

All-extend_last :
    (fs : List Bytes) (body : Bytes) → All IsUnit fs → All IsUnit (extend_last fs body)
unfolding extend_last
All-extend_last [] body h = tt
All-extend_last (f ∷ []) body h = ((h.0.0 ++ body, rw h.0.1), tt)
All-extend_last (f ∷ g ∷ fs) body h = (h.0, All-extend_last (g ∷ fs) body h.1)

-- What the handlers keep while they run: the units, and that an access unit is open.
abbrev IsOpen : Depacketizer → Type 0
IsOpen d = All IsUnit d.fragments × (d.assembling ≡ true)

stap_loop-IsOpen :
    (fuel : ℕ) (bytes : Bytes) (d : Depacketizer) → IsOpen d → IsOpen (stap_loop fuel bytes d).1
unfolding stap_loop
stap_loop-IsOpen fuel [] d h = h
stap_loop-IsOpen fuel (a ∷ []) d h = h
stap_loop-IsOpen zero (a ∷ b ∷ []) d h = h
stap_loop-IsOpen (suc fuel) (a ∷ b ∷ []) d h = h
stap_loop-IsOpen zero (a ∷ b ∷ header ∷ nal) d h = h
stap_loop-IsOpen (suc fuel) (a ∷ b ∷ header ∷ nal) d h =
    let size = a * 256 + b in
    let next = add_unit d (take size (header ∷ nal)) header in
    let ih =
      stap_loop-IsOpen fuel (drop size (header ∷ nal)) next
        (All-concat d.fragments (take size (header ∷ nal)) h.0, h.1) in
    elim (Bool-cases (size == 0 || ltb (length (header ∷ nal)) size)) [
      | inl e ↦ rw e h
      | inr e ↦ rw e ih
    ]

begin-IsOpen : (d : Depacketizer) (timestamp : ℕ) → IsValid d → IsOpen (begin d timestamp)
begin-IsOpen d timestamp v =
    elim (Bool-cases (not d.assembling || not (d.timestamp == timestamp))) [
      | inl e ↦ rw e (tt, refl)
      | inr e ↦ rw e (v.units, ground arith)
    ]

-- The state after a call: it is valid, and once an access unit has been given out it is idle.
pub record Leaves (r : Pushed × Depacketizer) : Type 0 where
  pub valid : IsValid r.1
  pub given_out :
      (bytes : Bytes) (keyframe : Bool)
      → r.0 ≡ unit bytes keyframe
      → (r.1.assembling ≡ false) × (r.1.fragments ≡ []) × (r.1.keyframe ≡ false)

Leaves-pending : (d : Depacketizer) → IsOpen d → Leaves (pending, d)
Leaves-pending d h = record {
  valid = record { units = h.0; idle = λ e. absurd (cc (h.1)) };
  given_out = λ bytes keyframe e. absurd cc;
}

Leaves-failed : (x : RtspError) (d : Depacketizer) → IsOpen d → Leaves (failed x, d)
Leaves-failed x d h = record {
  valid = record { units = h.0; idle = λ e. absurd (cc (h.1)) };
  given_out = λ bytes keyframe e. absurd cc;
}

finish-Leaves : (d : Depacketizer) (marker : Bool) → IsOpen d → Leaves (finish d marker)
finish-Leaves d true h = record {
  valid = record { units = tt; idle = λ e. (refl, refl) };
  given_out = λ bytes keyframe e. (refl, refl, refl);
}
finish-Leaves d false h = Leaves-pending d h

if-Leaves :
    (b : Bool) {x y : Pushed × Depacketizer} → Leaves x → Leaves y → Leaves (if b then x else y)
if-Leaves true hx hy = hx
if-Leaves false hx hy = hy

push_stap-Leaves :
    (d : Depacketizer) (body : Bytes) (marker : Bool) → IsOpen d → Leaves (push_stap d body marker)
unfolding push_stap
push_stap-Leaves d body marker h =
    let run = stap_loop (length body) body d in
    let kept = stap_loop-IsOpen (length body) body d h in
    if-Leaves run.0 (finish-Leaves run.1 marker kept) (Leaves-failed payload_too_short run.1 kept)

push_fu-Leaves :
    (d : Depacketizer) (indicator : ℕ) (body : Bytes) (marker : Bool)
    → IsOpen d
    → Leaves (push_fu d indicator body marker)
unfolding push_fu
push_fu-Leaves d indicator [] marker h = Leaves-failed payload_too_short d h
push_fu-Leaves d indicator (header ∷ body) marker h =
    let keyframe = d.keyframe || (header % 32 == 5) in
    let nal = (indicator / 32 * 32 + header % 32) ∷ body in
    let started : Depacketizer = record d {
      fragments = d.fragments ++ (annex_b_unit nal ∷ []);
      keyframe = keyframe;
    } in
    let extended : Depacketizer = record d {
      fragments = extend_last d.fragments body;
      keyframe = keyframe;
    } in
    let s : IsOpen started = (All-concat d.fragments nal h.0, h.1) in
    let e : IsOpen extended = (All-extend_last d.fragments body h.0, h.1) in
    let more = not (leb 64 (header % 128)) && not marker in
    let rest = λ (c : Depacketizer) (o : IsOpen c).
      if-Leaves more (Leaves-pending c o) (finish-Leaves c marker o) in
    if-Leaves (leb 128 header) (rest started s) (
      if-Leaves (ltb 0 (length d.fragments)) (rest extended e)
        (Leaves-failed payload_too_short d h))

dispatch-Leaves :
    (d : Depacketizer) (header : ℕ) (body : Bytes) (marker : Bool)
    → IsOpen d
    → Leaves (dispatch d header body marker)
unfolding dispatch
dispatch-Leaves d header body marker h =
    let kind = header % 32 in
    let added = add_unit d (header ∷ body) header in
    if-Leaves (leb 1 kind && leb kind 23)
      (finish-Leaves added marker (All-concat d.fragments (header ∷ body) h.0, h.1))
      (if-Leaves (kind == 24) (push_stap-Leaves d body marker h) (
        if-Leaves (kind == 28) (push_fu-Leaves d header body marker h)
          (Leaves-failed unsupported_nal d h)))

-- Every call of Push, its error paths included, keeps the invariant: where the fragments are Annex B
-- units and there is none, and no keyframe flag, outside an access unit, that holds after the call
-- too. After a call that gives out an access unit the depacketizer is idle, without a fragment and
-- without the keyframe flag.
pub push-IsValid :
    (d : Depacketizer) (payload : Bytes) (marker : Bool) (timestamp : ℕ)
    → IsValid d
    → Leaves (push d payload marker timestamp)
unfolding push
push-IsValid d [] marker timestamp v = record {
  valid = v;
  given_out = λ bytes keyframe e. absurd cc;
}
push-IsValid d (header ∷ body) marker timestamp v =
    dispatch-Leaves (begin d timestamp) header body marker (begin-IsOpen d timestamp v)

-- An access unit that begins does not depend on what was assembled before: the result is that of
-- a fresh depacketizer.
pub push-Begins :
    (d : Depacketizer) (payload : Bytes) (marker : Bool) (timestamp : ℕ)
    → Begins d timestamp
    → (push d payload marker timestamp).0
      ≡ (push (record fresh { sequence = d.sequence }) payload marker timestamp).0
unfolding push
push-Begins d [] marker timestamp b = refl
push-Begins d (header ∷ body) marker timestamp b =
    let same : begin d timestamp ≡ begin (record fresh { sequence = d.sequence }) timestamp =
      ground arith in
    ap (λ c. (dispatch c header body marker).0) same
