-- ===== src/Artifact/Keys.antt =====
-- sdk/local_artifact.go: validLocalArtifactKey on the segments of an object key.
use serviceradar_sdk_go.Base.{
  ℕ, true, false, List, [], ◌∷◌, ◌++◌, ◌≡◌, ◌≢◌, refl, ap, all, All, arith, Bool-cases, inl, inr,
}
use serviceradar_sdk_go.Strings.{
  Bytes, str, equal, has_prefix, contains, split, split_from, prepend,
}
use serviceradar_sdk_go.Artifact.{valid_local_artifact_key, good_segment}

abbrev dots : Bytes
dots = str ".."

abbrev slash : Bytes
slash = str "/"

-- A list of words whose first word begins the text, and none of which holds two dots in a row.
abbrev Clean : Bytes → List Bytes → Type 0
Clean s [] = ⊥
Clean s (w ∷ ws) = ((t : Bytes) × (s ≡ w ++ t)) × All (λ v. contains v dots ≡ false) (w ∷ ws)

has_prefix-weaken : (a t p : Bytes) → has_prefix (a ++ t) p ≡ false → has_prefix a p ≡ false
unfolding has_prefix
has_prefix-weaken a t [] h = h
has_prefix-weaken [] t (x ∷ p) h = refl
has_prefix-weaken (c ∷ a) t (x ∷ p) h = ground (arith, has_prefix-weaken a t p)

Clean-prepend :
    (c : ℕ) (s : Bytes) (ws : List Bytes)
    → Clean s ws
    → has_prefix (c ∷ s) dots ≡ false
    → Clean (c ∷ s) (prepend c ws)
Clean-prepend c s (w ∷ ws) ((t, e), (h, hs)) p =
    ((t, ap (◌∷◌ c) e), (contains_cons c w (has_prefix-weaken (c ∷ w) t dots (rw e at p)) h, hs))
  where
    contains_cons :
        (c : ℕ) (w : Bytes)
        → has_prefix (c ∷ w) dots ≡ false
        → contains w dots ≡ false
        → contains (c ∷ w) dots ≡ false
    contains_cons c w p h = unfold contains in rw p h
Clean-prepend c s [] h p = elim h [ ]

contains-head :
    (c : ℕ) (s : Bytes)
    → contains (c ∷ s) dots ≡ false
    → (has_prefix (c ∷ s) dots ≡ false) × (contains s dots ≡ false)
unfolding contains
contains-head c s h = (ground arith, ground arith)

Clean-split : (s : Bytes) → contains s dots ≡ false → Clean s (split_from 0 s slash)
unfolding split_from contains
Clean-split [] h = (([], refl), (h, tt))
Clean-split (c ∷ s) h =
    let (p, h') = contains-head c s h in
    let ih = Clean-split s h' in
    elim (Bool-cases (has_prefix (c ∷ s) slash)) [
      | inl e ↦ rw e ((c ∷ s, refl), (refl, All_of_Clean s (split_from 0 s slash) ih))
      | inr e ↦ rw e (Clean-prepend c s (split_from 0 s slash) ih p)
    ]
  where
    All_of_Clean :
        (s : Bytes) (ws : List Bytes) → Clean s ws → All (λ v. contains v dots ≡ false) ws
    All_of_Clean s [] c = tt
    All_of_Clean s (w ∷ ws) c = c.1

-- What a segment of an object key is: a name, and no step in or up the tree.
abbrev pub IsName : Bytes → Type 0
IsName w = (w ≢ []) × (w ≢ str ".") × (w ≢ str "..")

IsName-of : (w : Bytes) → good_segment w ≡ true → contains w dots ≡ false → IsName w
unfolding good_segment contains has_prefix equal
IsName-of w g d = (
  λ e. cc (g, ap (λ v. good_segment v) e),
  λ e. cc (g, ap (λ v. good_segment v) e),
  λ e. cc (d, ap (λ v. contains v dots) e),
)

All-names :
    (ws : List Bytes)
    → all good_segment ws ≡ true
    → All (λ v. contains v dots ≡ false) ws
    → All IsName ws
All-names [] g d = tt
All-names (w ∷ ws) g d = (IsName-of w (ground arith) d.0, All-names ws (ground arith) d.1)

-- A key that is accepted does not begin with a slash, and none of its segments between slashes is
-- empty, "." or "..".
pub valid_local_artifact_key-names :
    (key : Bytes)
    → valid_local_artifact_key key ≡ true
    → (has_prefix key slash ≡ false) × All IsName (split key slash)
unfolding valid_local_artifact_key split
valid_local_artifact_key-names key h =
    let dotless : contains key dots ≡ false = ground arith in
    let good : all good_segment (split_from 0 key slash) ≡ true = ground arith in
    (
      ground arith,
      All-names (split_from 0 key slash) good
          (names key (split_from 0 key slash) (Clean-split key dotless)),
    )
  where
    names : (s : Bytes) (ws : List Bytes) → Clean s ws → All (λ v. contains v dots ≡ false) ws
    names s [] c = tt
    names s (w ∷ ws) c = c.1
