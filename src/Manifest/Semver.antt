-- ===== src/Manifest/Semver.antt =====
-- The versions that isSemver accepts.
use serviceradar_sdk_go.Base.{
  ℕ, Bool, true, false, ◌&&◌, ◌||◌, List, [], ◌∷◌, ◌++◌, ◌≡◌, ◌≢◌, ◌⊎◌, ◌↔◌, refl, ap, sym, ◌∙◌,
  append_assoc, append-nil, Option, none, some, ◌==◌, ==_iff, null, length, all, arith, Bool-cases,
  inl, inr,
}
use mathlib.Core.Path.{subst}
use serviceradar_sdk_go.Strings.{Bytes, str, is_digit, has_prefix, split, split_from, prepend, join}
use serviceradar_sdk_go.Manifest.{is_semver, cut_any, good_suffix, suffix_byte, number}

abbrev dot : Bytes
dot = str "."

digit-not_dot : (c : ℕ) → is_digit c ≡ true → (c == b'.') ≡ false
digit-not_dot c h = ground arith

dotted : (c : ℕ) → (c == b'.') ≡ true → c ≡ b'.'
dotted c h = ground arith

-- A number followed by a dot is the first part.
split-number :
    (a s : Bytes)
    → all is_digit a ≡ true
    → split_from 0 (a ++ (dot ++ s)) dot ≡ a ∷ split_from 0 s dot
unfolding split_from has_prefix
split-number [] s h = refl
split-number (c ∷ a) s h = rw (digit-not_dot c (ground arith), split-number a s (ground arith)) refl

split-last : (a : Bytes) → all is_digit a ≡ true → split_from 0 a dot ≡ a ∷ []
unfolding split_from has_prefix
split-last [] h = refl
split-last (c ∷ a) h = rw (digit-not_dot c (ground arith), split-last a (ground arith)) refl

-- The digits and dots before a suffix are the core.
cut_any-append :
    (core rest : Bytes)
    → all (λ c. is_digit c || c == b'.') core ≡ true
    → cut_any (core ++ rest) ≡ (core ++ (cut_any rest).0, (cut_any rest).1)
unfolding cut_any
cut_any-append [] rest h = refl
cut_any-append (c ∷ core) rest h = ground (arith, cut_any-append core rest)

abbrev pub triple : Bytes → Bytes → Bytes → Bytes
triple a b c = a ++ (dot ++ (b ++ (dot ++ c)))

-- What may follow the three numbers: nothing, or a sign and a suffix that is not empty.
abbrev pub IsTail : Bytes → Type 0
IsTail [] = Unit
IsTail (sign ∷ suffix) =
    ((sign ≡ b'-') ⊎ (sign ≡ b'+')) × (null suffix ≡ false) × (all suffix_byte suffix ≡ true)

join-prepend : (c : ℕ) (ws : List Bytes) → join (prepend c ws) dot ≡ c ∷ join ws dot
unfolding join
join-prepend c [] = refl
join-prepend c (w ∷ []) = refl
join-prepend c (w ∷ v ∷ ws) = refl

join-cons : (w : Bytes) (ws : List Bytes) → ws ≢ [] → join (w ∷ ws) dot ≡ w ++ (dot ++ join ws dot)
unfolding join
join-cons w [] h = absurd (h refl)
join-cons w (v ∷ ws) h = append_assoc w dot (join (v ∷ ws) dot)

cons_nonempty : {w : Bytes} {ws : List Bytes} → w ∷ ws ≡ [] → ⊥
cons_nonempty e = cc

prepend_nonempty : (c : ℕ) (ws : List Bytes) → prepend c ws ≢ []
prepend_nonempty c [] e = cc
prepend_nonempty c (w ∷ ws) e = cc

split_from-nonempty : (s : Bytes) → split_from 0 s dot ≢ []
unfolding split_from has_prefix
split_from-nonempty [] e = cc
split_from-nonempty (c ∷ s) e = elim (Bool-cases (c == b'.')) [
  | inl d ↦ cons_nonempty (rw d at e)
  | inr d ↦ prepend_nonempty c (split_from 0 s dot) (rw d at e)
]

join-split_from : (s : Bytes) → join (split_from 0 s dot) dot ≡ s
unfolding split_from has_prefix
join-split_from [] = unfold join in refl
join-split_from (c ∷ s) = elim (Bool-cases (c == b'.')) [
  | inl e ↦ rw e (
      join-cons [] (split_from 0 s dot) (split_from-nonempty s)
      ∙ (ap (λ t. dot ++ t) (join-split_from s) ∙ ap (λ x. x ∷ s) (sym (dotted c e))))
  | inr e ↦ rw e (join-prepend c (split_from 0 s dot) ∙ ap (λ t. c ∷ t) (join-split_from s))
]

-- The text behind the core, with its sign.
cut_any_cases :
    (v : Bytes)
    → (((cut_any v).1 ≡ none) × (v ≡ (cut_any v).0))
      ⊎ ((sign : ℕ) × (suffix : Bytes) × ((cut_any v).1 ≡ some suffix)
          × ((sign ≡ b'-') ⊎ (sign ≡ b'+'))
          × (v ≡ (cut_any v).0 ++ (sign ∷ suffix)))
unfolding cut_any
cut_any_cases [] = inl (refl, refl)
cut_any_cases (c ∷ v) = elim (Bool-cases (c == b'-' || c == b'+')) [
  | inl e ↦ inr (c, v, rw e refl, ground arith, rw e refl)
  | inr e ↦ elim (cut_any_cases v) [
    | inl (n, q) ↦ inl (rw e n, rw e (ap (λ t. c ∷ t) q))
    | inr (sign, suffix, n, o, q) ↦ inr (sign, suffix, rw e n, o, rw e (ap (λ t. c ∷ t) q))
  ]
]

join_three : (a b c : Bytes) → join (a ∷ b ∷ c ∷ []) dot ≡ triple a b c
join_three a b c =
    join-cons a (b ∷ c ∷ []) cons_nonempty
    ∙ ap (λ t. a ++ (dot ++ t)) (join-cons b (c ∷ []) cons_nonempty ∙ unfold join in refl)

split-triple :
    (a b c : Bytes)
    → number a ≡ true
    → number b ≡ true
    → number c ≡ true
    → split_from 0 (triple a b c) dot ≡ a ∷ b ∷ c ∷ []
split-triple a b c p q r =
    split-number a (b ++ (dot ++ c)) (ground arith)
    ∙ ap (λ ps. a ∷ ps)
        (split-number b c (ground arith) ∙ ap (λ ps. b ∷ ps) (split-last c (ground arith)))

abbrev core_byte : ℕ → Bool
core_byte c = is_digit c || c == b'.'

all-digits :
    (a s : Bytes) → all is_digit a ≡ true → all core_byte s ≡ true → all core_byte (a ++ s) ≡ true
all-digits [] s h g = g
all-digits (c ∷ a) s h g = ground (arith, all-digits a s)

all-triple :
    (a b c : Bytes)
    → number a ≡ true
    → number b ≡ true
    → number c ≡ true
    → all core_byte (triple a b c) ≡ true
all-triple a b c p q r =
    let last : all core_byte (c ++ []) ≡ true = all-digits c [] (ground arith) refl in
    let third : all core_byte c ≡ true = subst (λ t. all core_byte t ≡ true) (append-nil c) last in
    all-digits a (dot ++ (b ++ (dot ++ c))) (ground arith)
      (all-digits b (dot ++ c) (ground arith) third)

all_true : (x y z : Bool) → (x && y && z) ≡ true → (x ≡ true) × (y ≡ true) × (z ≡ true)
all_true x y z h = ground arith

abbrev suffix_of : Bytes → Option Bytes
suffix_of [] = none
suffix_of (sign ∷ suffix) = some suffix

cut_any-tail : (tail : Bytes) → IsTail tail → cut_any tail ≡ ([], suffix_of tail)
unfolding cut_any
cut_any-tail [] t = refl
cut_any-tail (sign ∷ suffix) (inl e, n, g) = rw e refl
cut_any-tail (sign ∷ suffix) (inr e, n, g) = rw e refl

good_suffix-tail : (tail : Bytes) → IsTail tail → good_suffix (suffix_of tail) ≡ true
good_suffix-tail [] t = refl
good_suffix-tail (sign ∷ suffix) (o, n, g) = rw n g

-- The parts of a core that is split into three.
three_parts :
    (core : Bytes) (parts : List Bytes)
    → split_from 0 core dot ≡ parts
    → length parts ≡ 3
    → all number parts ≡ true
    → (a : Bytes) × (b : Bytes) × (c : Bytes) × (core ≡ triple a b c)
      × (number a ≡ true)
      × (number b ≡ true)
      × (number c ≡ true)
three_parts core [] e l n = cc
three_parts core (a ∷ []) e l n = absurd (omega (arith, l))
three_parts core (a ∷ b ∷ []) e l n = absurd (omega (arith, l))
three_parts core (a ∷ b ∷ c ∷ d ∷ parts) e l n = absurd (omega (arith, l))
three_parts core (a ∷ b ∷ c ∷ []) e l n = (
  a,
  b,
  c,
  sym (join-split_from core) ∙ (ap (λ ps. join ps dot) e ∙ join_three a b c),
  ground arith,
  ground arith,
  ground arith,
)

-- A version is accepted exactly if it is three numbers, separated by dots, with nothing behind them
-- or with a minus or plus sign and a suffix of letters, digits, dots and minus signs that is not empty.
pub is_semver_iff :
    (v : Bytes)
    → (is_semver v ≡ true) ↔ (
        (a : Bytes) × (b : Bytes) × (c : Bytes) × (tail : Bytes) × (v ≡ triple a b c ++ tail)
        × (number a ≡ true)
        × (number b ≡ true)
        × (number c ≡ true)
        × IsTail tail)
unfolding is_semver split
is_semver_iff v = (sound, complete)
  where
    sound :
        is_semver v ≡ true
        → (a : Bytes) × (b : Bytes) × (c : Bytes) × (tail : Bytes) × (v ≡ triple a b c ++ tail)
          × (number a ≡ true)
          × (number b ≡ true)
          × (number c ≡ true)
          × IsTail tail
    sound h =
        let parts = split_from 0 (cut_any v).0 dot in
        let (suffixed, three, numbers) =
          all_true (good_suffix (cut_any v).1) (length parts == 3) (all number parts) h in
        let (a, b, c, core, p, q, r) =
          three_parts (cut_any v).0 parts refl ((==_iff (length parts) 3).0 three) numbers in
        elim (cut_any_cases v) [
          | inl (n, e) ↦ (a, b, c, [], e ∙ (core ∙ sym (append-nil (triple a b c))), p, q, r, tt)
          | inr (sign, suffix, n, o, e) ↦
              let good : good_suffix (some suffix) ≡ true = rw n at suffixed in
              (
                a,
                b,
                c,
                sign ∷ suffix,
                e ∙ ap (λ t. t ++ (sign ∷ suffix)) core,
                p,
                q,
                r,
                (o, ground arith, ground arith),
              )
        ]

    complete :
        ((a : Bytes) × (b : Bytes) × (c : Bytes) × (tail : Bytes) × (v ≡ triple a b c ++ tail)
          × (number a ≡ true)
          × (number b ≡ true)
          × (number c ≡ true)
          × IsTail tail)
        → is_semver v ≡ true
    complete (a, b, c, tail, e, p, q, r, t) =
        rw
          (
            e,
            cut_any-append (triple a b c) tail (all-triple a b c p q r),
            cut_any-tail tail t,
            append-nil,
            split-triple a b c p q r,
            p,
            q,
            r,
            good_suffix-tail tail t,
          )
          refl
