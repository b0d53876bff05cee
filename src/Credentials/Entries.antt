-- ===== src/Credentials/Entries.antt =====
-- The entries field_ and fixed_ of a spec of sdk/credential_grant.go.
use serviceradar_sdk_go.Base.{
  true, false, not, ◌||◌, [], ◌∷◌, ◌++◌, ◌≡◌, ◌⊎◌, inl, inr, refl, sym, ap, ◌∙◌, none, some,
  if◌then◌else◌, null, drop, All, arith, append-nil, append_assoc, Bool-cases, Option-cases, Result,
  ok, err,
}
use mathlib.Core.Path.{subst}
use serviceradar_sdk_go.Strings.{Bytes, equal, equal_sound, has_prefix, trim_space}
use serviceradar_sdk_go.Maps.{Dict, lookup, insert, lookup-insert}
use serviceradar_sdk_go.Credentials.Spec.{
  SpecError, field_prefix, fixed_prefix, valid_inject_suffix, collect_fields, collect_fixed,
}

-- The form fields of a spec: each entry field_<source> with its target.
abbrev pub field_entries : Dict Bytes → Dict Bytes
field_entries [] = []
field_entries ((key, value) ∷ spec) =
    let rest = field_entries spec in
    if has_prefix key field_prefix then (trim_space value, drop 6 key) ∷ rest else rest

abbrev pub IsMapping : Bytes × Bytes → Type 0
IsMapping (target, source) = (null target ≡ false) × (valid_inject_suffix source ≡ true)

insert_absent :
    (k v : Bytes) (m : Dict Bytes) → lookup k m ≡ none → insert k v m ≡ m ++ ((k, v) ∷ [])
unfolding lookup insert
insert_absent k v [] e = refl
insert_absent k v ((j, w) ∷ m) e = elim (Bool-cases (equal j k)) [
  | inl c ↦ absurd (some_none (rw c at e))
  | inr c ↦ rw c (ap (λ x. (j, w) ∷ x) (insert_absent k v m (rw c at e)))
]
  where
    some_none : some w ≡ none → ⊥
    some_none e = cc

abbrev pub failure : SpecError → Result SpecError (Dict Bytes)
failure e = err e

abbrev pub success : Dict Bytes → Result SpecError (Dict Bytes)
success m = ok m

clash : {A : Type 0} {e : SpecError} {m : Dict Bytes} → failure e ≡ success m → A
clash {e} {m} p = absurd (distinct p)
  where
    distinct : failure e ≡ success m → ⊥
    distinct p = cc

success-injective : {m n : Dict Bytes} → success m ≡ success n → m ≡ n
success-injective {m} e = ap (λ x. elim x [ ok y ↦ y | err z ↦ m ]) e

pub collect_fields-mapped :
    (spec fields result : Dict Bytes)
    → collect_fields spec fields ≡ success result
    → (result ≡ fields ++ field_entries spec) × All IsMapping (field_entries spec)
unfolding collect_fields
collect_fields-mapped [] fields result e = (rw (append-nil fields) (sym (success-injective e)), tt)
collect_fields-mapped ((key, value) ∷ spec) fields result e =
    let target = trim_space value in
    let source = drop 6 key in
    elim (Bool-cases (has_prefix key field_prefix)) [
      | inr p ↦ rw p (collect_fields-mapped spec fields result (rw p at e))
      | inl p ↦ elim (Bool-cases (not (valid_inject_suffix source) || null target)) [
        | inl b ↦ clash (rw (p, b) at e)
        | inr b ↦ elim (Option-cases (lookup target fields)) [
          | inr (dup, d) ↦ clash (rw (p, b, d) at e)
          | inl d ↦
              let (whole, good) =
                collect_fields-mapped spec (insert target source fields) result
                  (rw (p, b, d) at e) in
              let ends = insert_absent target source fields d in
              rw p (
                whole
                    ∙ ap (λ x. x ++ field_entries spec) ends
                    ∙ append_assoc fields ((target, source) ∷ []) (field_entries spec),
                ((ground arith, ground arith), good),
              )
        ]
      ]
    ]

-- No form field is both mapped and fixed.
abbrev pub AreDisjoint : Dict Bytes → Dict Bytes → Type 0
AreDisjoint fields fixed = (k : Bytes) → (lookup k fields ≡ none) ⊎ (lookup k fixed ≡ none)

AreDisjoint-insert :
    (k v : Bytes) (fields fixed : Dict Bytes)
    → lookup k fields ≡ none
    → AreDisjoint fields fixed
    → AreDisjoint fields (insert k v fixed)
AreDisjoint-insert k v fields fixed e d j = elim (Bool-cases (equal k j)) [
  | inl c ↦ inl (subst (λ x. lookup x fields ≡ none) (equal_sound k j c) e)
  | inr c ↦ elim (d j) [ inl n ↦ inl n | inr n ↦ inr (rw (lookup-insert k j v fixed, c) n) ]
]

pub collect_fixed-AreDisjoint :
    (fields spec fixed result : Dict Bytes)
    → AreDisjoint fields fixed
    → collect_fixed fields spec fixed ≡ success result
    → AreDisjoint fields result
unfolding collect_fixed
collect_fixed-AreDisjoint fields [] fixed result d e =
    subst (AreDisjoint fields) (success-injective e) d
collect_fixed-AreDisjoint fields ((key, value) ∷ spec) fixed result d e =
    let field = drop 6 key in
    elim (Bool-cases (has_prefix key fixed_prefix)) [
      | inr p ↦ collect_fixed-AreDisjoint fields spec fixed result d (rw p at e)
      | inl p ↦ elim (Bool-cases (valid_inject_suffix field)) [
        | inr b ↦ clash (rw (p, b) at e)
        | inl b ↦ elim (Option-cases (lookup field fields)) [
          | inr (dup, q) ↦ clash (rw (p, b, q) at e)
          | inl q ↦
              collect_fixed-AreDisjoint fields spec (insert field value fixed) result
                (AreDisjoint-insert field value fields fixed q d) (rw (p, b, q) at e)
        ]
      ]
    ]
