-- ===== src/Strings/Separators.antt =====
-- strings.Cut and strings.Split at a separator that does not begin earlier.
use serviceradar_sdk_go.Base.{
  ℕ, suc, ◌-◌, true, false, [], ◌∷◌, ◌++◌, ◌≡◌, refl, ◌==◌, length, drop-append, All, append_assoc,
  append-nil, arith,
}
use serviceradar_sdk_go.Strings.Text.{Bytes, has_prefix, has_prefix-append}
use serviceradar_sdk_go.Strings.Split.{cut, split_from}

-- The separator begins at no byte of `a`, where `t` follows.
abbrev pub IsFree : Bytes → Bytes → Bytes → Type 0
IsFree sep [] t = Unit
IsFree sep (c ∷ a) t = (has_prefix (c ∷ (a ++ t)) sep ≡ false) × IsFree sep a t

pub IsFree-append :
    (sep a b t : Bytes) → IsFree sep a (b ++ t) → IsFree sep b t → IsFree sep (a ++ b) t
IsFree-append sep [] b t f g = g
IsFree-append sep (c ∷ a) b t (p, f) g = (rw (append_assoc a b t) p, IsFree-append sep a b t f g)

-- A text without the first byte of the separator.
pub IsFree-apart : (x : ℕ) (sep a t : Bytes) → All (λ c. (c == x) ≡ false) a → IsFree (x ∷ sep) a t
unfolding has_prefix
IsFree-apart x sep [] t f = tt
IsFree-apart x sep (c ∷ a) t (p, f) = (rw p refl, IsFree-apart x sep a t f)

pub cut-IsFree :
    (x : ℕ) (sep a b : Bytes)
    → IsFree (x ∷ sep) a ((x ∷ sep) ++ b)
    → cut (a ++ ((x ∷ sep) ++ b)) (x ∷ sep) ≡ (a, b, true)
unfolding cut
cut-IsFree x sep [] b f =
    let p : has_prefix (x ∷ (sep ++ b)) (x ∷ sep) ≡ true = has_prefix-append (x ∷ sep) b in
    rw (p, drop-append sep b) refl
cut-IsFree x sep (c ∷ a) b (p, f) = rw (p, cut-IsFree x sep a b f) refl

skip_lem : (sep s t : Bytes) → split_from (length s) (s ++ t) sep ≡ split_from 0 t sep
unfolding split_from
skip_lem sep [] t = refl
skip_lem sep (c ∷ s) t = skip_lem sep s t

pub split-IsFree :
    (x : ℕ) (sep a t : Bytes)
    → IsFree (x ∷ sep) a ((x ∷ sep) ++ t)
    → split_from 0 (a ++ ((x ∷ sep) ++ t)) (x ∷ sep) ≡ a ∷ split_from 0 t (x ∷ sep)
unfolding split_from
split-IsFree x sep [] t f =
    let p : has_prefix (x ∷ (sep ++ t)) (x ∷ sep) ≡ true = has_prefix-append (x ∷ sep) t in
    let e : suc (length sep) - 1 ≡ length sep = omega arith in
    rw (p, e, skip_lem (x ∷ sep) sep t) refl
split-IsFree x sep (c ∷ a) t (p, f) = rw (p, split-IsFree x sep a t f) refl

pub split-last : (sep a : Bytes) → IsFree sep a [] → split_from 0 a sep ≡ a ∷ []
unfolding split_from
split-last sep [] f = refl
split-last sep (c ∷ a) (p, f) =
    let q : has_prefix (c ∷ a) sep ≡ false = rw append-nil at p in rw (q, split-last sep a f) refl
