-- ===== src/LocalInputs/Precedence.antt =====
-- sdk/local_inputs.go: the process environment goes over the environment file.
use serviceradar_sdk_go.Base.{
  false, not, ◌&&◌, List, [], ◌∷◌, ◌≡◌, refl, ap, ◌∙◌, Option, none, some, if◌then◌else◌, null,
  Bool-cases, inl, inr,
}
use mathlib.Core.Path.{subst}
use serviceradar_sdk_go.Strings.{Bytes, str, cut, equal, equal_sound, equal_refl}
use serviceradar_sdk_go.Maps.{Dict, lookup, insert, lookup-insert}
use serviceradar_sdk_go.LocalInputs.{parse_environment_from, parse_environment, overlay_environment}

-- Each key stands once.
abbrev IsUnique : Dict Bytes → Type 0
IsUnique [] = Unit
IsUnique ((k, v) ∷ m) = (lookup k m ≡ none) × IsUnique m

IsUnique-insert : (k v : Bytes) (m : Dict Bytes) → IsUnique m → IsUnique (insert k v m)
unfolding insert lookup
IsUnique-insert k v [] u = (refl, tt)
IsUnique-insert k v ((j, w) ∷ m) (a, u) = elim (Bool-cases (equal j k)) [
  | inl e ↦ rw e (subst (λ x. lookup x m ≡ none) (equal_sound j k e) a, u)
  | inr e ↦
      let apart : equal k j ≡ false = not_equal k j e in
      rw e (rw (lookup-insert k j v m, apart) a, IsUnique-insert k v m u)
]
  where
    not_equal : (x y : Bytes) → equal y x ≡ false → equal x y ≡ false
    not_equal x y e = elim (Bool-cases (equal x y)) [
      | inr d ↦ d
      | inl d ↦ cc (e, equal_refl y, ap (λ z. equal y z) (equal_sound x y d))
    ]

IsUnique-parse :
    (values : List Bytes) (m : Dict Bytes) → IsUnique m → IsUnique (parse_environment_from values m)
unfolding parse_environment_from
IsUnique-parse [] m u = u
IsUnique-parse (entry ∷ values) m u =
    let (key, value, found) = cut entry (str "=") in
    elim (Bool-cases (found && not (null key))) [
      | inl e ↦ rw e (IsUnique-parse values (insert key value m) (IsUnique-insert key value m u))
      | inr e ↦ rw e (IsUnique-parse values m u)
    ]

-- The value of the process where it has one, and that of the file elsewhere.
abbrev pub over : Option Bytes → Option Bytes → Option Bytes
over (some v) file = some v
over none file = file

lookup-overlay :
    (k : Bytes) (base override : Dict Bytes)
    → IsUnique override
    → lookup k (overlay_environment base override) ≡ over (lookup k override) (lookup k base)
unfolding overlay_environment lookup
lookup-overlay k base [] u = refl
lookup-overlay k base ((j, v) ∷ override) (a, u) =
    lookup-overlay k (insert j v base) override u ∙ step
  where
    step :
        over (lookup k override) (lookup k (insert j v base))
        ≡ over (if equal j k then some v else lookup k override) (lookup k base)
    step = elim (Bool-cases (equal j k)) [
      | inl e ↦
          let gone : lookup k override ≡ none =
            subst (λ x. lookup x override ≡ none) (equal_sound j k e) a in
          rw (lookup-insert j k v base, e, gone) refl
      | inr e ↦ rw (lookup-insert j k v base, e) refl
    ]

-- For every variable, the merged environment has the value that the process environment gives it,
-- and where that has none, the value of the environment file.
pub lookup-overlay_environment :
    (k : Bytes) (file : Dict Bytes) (values : List Bytes)
    → lookup k (overlay_environment file (parse_environment values))
      ≡ over (lookup k (parse_environment values)) (lookup k file)
lookup-overlay_environment k file values =
    lookup-overlay k file (parse_environment values) (IsUnique-parse values [] tt)
