-- ===== src/Maps.antt =====
-- Go maps with string keys as association lists; `nil` is the empty list. Go ranges over a map in
-- no fixed order: a list stands for one such order.
use serviceradar_sdk_go.Base.{List, [], ◌∷◌, ◌≡◌, refl, Option, none, some, arith, if◌then◌else◌}
use serviceradar_sdk_go.Strings.{Bytes, equal, equal_iff}

abbrev pub Dict {ℓ} : Type ℓ → Type ℓ
Dict V = List (Bytes × V)

module _ {ℓ} {V : Type ℓ} where
  -- m[k], with the flag of `v, ok := m[k]`
  unfoldable pub lookup : Bytes → Dict V → Option V
  lookup k [] = none
  lookup k ((j, v) ∷ m) = if equal j k then some v else lookup k m

  -- m[k] = v
  unfoldable pub insert : Bytes → V → Dict V → Dict V
  insert k v [] = (k, v) ∷ []
  insert k v ((j, w) ∷ m) = if equal j k then (k, v) ∷ m else (j, w) ∷ insert k v m

  -- delete(m, k)
  unfoldable pub remove : Bytes → Dict V → Dict V
  remove k [] = []
  remove k ((j, w) ∷ m) = let rest = remove k m in if equal j k then rest else (j, w) ∷ rest

  pub lookup-insert :
      (k j : Bytes) (v : V) (m : Dict V)
      → lookup j (insert k v m) ≡ (if equal k j then some v else lookup j m)
  unfolding lookup insert
  lookup-insert k j v [] = refl
  lookup-insert k j v ((i, w) ∷ m) =
      ground (arith, equal_iff k j, equal_iff i k, equal_iff i j, lookup-insert k j v m)

-- m[k] on a map of strings: "" where the key is missing
unfoldable pub get : Bytes → Dict Bytes → Bytes
unfolding lookup
get k m = elim (lookup k m) [ none ↦ [] | some v ↦ v ]
