-- ===== src/Strings/Trim.antt =====
-- strings.TrimSpace leaves visible ASCII text as it is.
use mathlib.Core.List.{reverse, reverse-cons, reverse-reverse}
use serviceradar_sdk_go.Base.{ℕ, Bool, true, ◌&&◌, [], ◌∷◌, ◌++◌, ◌≡◌, refl, leb, ◌==◌, all, arith}
use serviceradar_sdk_go.Strings.Text.{Bytes}
use serviceradar_sdk_go.Strings.Split.{space_width, space_width_back, trim_front, trim_space}

-- A printable ASCII character other than the space
abbrev pub visible : ℕ → Bool
visible c = leb 33 c && leb c 126

space_width-visible : (c : ℕ) (s : Bytes) → visible c ≡ true → (space_width (c ∷ s) == 0) ≡ true
unfolding space_width
space_width-visible c s h = ground arith

space_width_back-visible :
    (c : ℕ) (s : Bytes) → visible c ≡ true → (space_width_back (c ∷ s) == 0) ≡ true
unfolding space_width_back
space_width_back-visible c s h = ground arith

trim_front-visible : (s : Bytes) → all visible s ≡ true → trim_front space_width 0 s ≡ s
unfolding trim_front
trim_front-visible [] h = refl
trim_front-visible (c ∷ s) h = rw (space_width-visible c s (ground arith)) refl

trim_back-visible : (s : Bytes) → all visible s ≡ true → trim_front space_width_back 0 s ≡ s
unfolding trim_front
trim_back-visible [] h = refl
trim_back-visible (c ∷ s) h = rw (space_width_back-visible c s (ground arith)) refl

all-append :
    (s t : Bytes) → all visible s ≡ true → all visible t ≡ true → all visible (s ++ t) ≡ true
all-append [] t h k = k
all-append (c ∷ s) t h k = ground (arith, all-append s t)

all-reverse : (s : Bytes) → all visible s ≡ true → all visible (reverse s) ≡ true
all-reverse [] h = refl
all-reverse (c ∷ s) h =
    let one : all visible (c ∷ []) ≡ true = ground arith in
    rw (reverse-cons c s) (all-append (reverse s) (c ∷ []) (all-reverse s (ground arith)) one)

pub trim_space-visible : (s : Bytes) → all visible s ≡ true → trim_space s ≡ s
unfolding trim_space
trim_space-visible s h =
    rw (trim_front-visible s h, trim_back-visible (reverse s) (all-reverse s h), reverse-reverse s)
      refl
