-- ===== src/Strings/Split.antt =====
-- strings.Cut, strings.Split, strings.TrimSpace, strings.Trim, strings.ToLower and strings.Join.
use mathlib.Core.List.{reverse, map}
use serviceradar_sdk_go.Base.{
  ℕ, zero, suc, ◌-◌, ◌+◌, Bool, true, false, ◌&&◌, ◌||◌, List, [], ◌∷◌, ◌++◌, leb, ◌==◌,
  if◌then◌else◌, length, drop, get_or, null,
}
use serviceradar_sdk_go.Strings.Text.{Bytes, equal, has_prefix}

-- strings.Cut(s, sep) for a separator that is not empty: (before, after, found)
unfoldable pub cut : Bytes → Bytes → Bytes × Bytes × Bool
unfolding has_prefix
cut [] sep = ([], [], false)
cut (c ∷ s) sep =
    let rest = cut s sep in
    if has_prefix (c ∷ s) sep
    then ([], drop (length sep) (c ∷ s), true)
    else (c ∷ rest.0, rest.1, rest.2)

abbrev pub prepend : ℕ → List Bytes → List Bytes
prepend c [] = (c ∷ []) ∷ []
prepend c (w ∷ ws) = (c ∷ w) ∷ ws

-- strings.Split for a separator that is not empty; the number counts separator bytes to skip
unfoldable pub split_from : ℕ → Bytes → Bytes → List Bytes
unfolding has_prefix
split_from (suc k) [] sep = [] ∷ []
split_from (suc k) (c ∷ s) sep = split_from k s sep
split_from zero [] sep = [] ∷ []
split_from zero (c ∷ s) sep =
    let next = [] ∷ split_from (length sep - 1) s sep in
    let same = prepend c (split_from zero s sep) in if has_prefix (c ∷ s) sep then next else same

unfoldable pub split : Bytes → Bytes → List Bytes
unfolding split_from
split s sep = split_from 0 s sep

-- The width of the white space rune (unicode.IsSpace, in UTF-8) that the text begins with, or 0.
abbrev ascii_space : ℕ → Bool
ascii_space c = c == 32 || (leb 9 c && leb c 13)

abbrev space_three : ℕ → ℕ → ℕ → Bool
space_three a b c =
    (a == 0xe1 && b == 0x9a && c == 0x80)
    || (a == 0xe2
        && b == 0x80
        && ((leb 0x80 c && leb c 0x8a) || c == 0xa8 || c == 0xa9 || c == 0xaf))
    || (a == 0xe2 && b == 0x81 && c == 0x9f)
    || (a == 0xe3 && b == 0x80 && c == 0x80)

unfoldable pub space_width : Bytes → ℕ
space_width s =
    let a = get_or s 0 0 in
    let b = get_or s 1 0 in
    let c = get_or s 2 0 in
    if null s
    then 0
    else if ascii_space a
    then 1
    else if a == 0xc2 && (b == 0x85 || b == 0xa0)
    then 2
    else if space_three a b c
    then 3
    else 0

-- The same at the end of a text that is given in reverse.
unfoldable pub space_width_back : Bytes → ℕ
space_width_back s =
    let a = get_or s 0 0 in
    let b = get_or s 1 0 in
    let c = get_or s 2 0 in
    if null s
    then 0
    else if ascii_space a
    then 1
    else if b == 0xc2 && (a == 0x85 || a == 0xa0)
    then 2
    else if space_three c b a
    then 3
    else 0

unfoldable pub trim_front : (Bytes → ℕ) → ℕ → Bytes → Bytes
trim_front width k [] = []
trim_front width (suc k) (c ∷ s) = trim_front width k s
trim_front width zero (c ∷ s) =
    let w = width (c ∷ s) in let rest = trim_front width (w - 1) s in if w == 0 then c ∷ s else rest

-- strings.TrimSpace
unfoldable pub trim_space : Bytes → Bytes
unfolding trim_front space_width space_width_back
trim_space s = reverse (trim_front space_width_back 0 (reverse (trim_front space_width 0 s)))

-- strings.Trim(s, `"`)
unfoldable pub trim_quotes : Bytes → Bytes
unfolding trim_front
trim_quotes s =
    let quote_width : Bytes → ℕ = λ t. if get_or t 0 0 == b'"' then 1 else 0 in
    reverse (trim_front quote_width 0 (reverse (trim_front quote_width 0 s)))

-- strings.TrimSpace(s) == ""
unfoldable pub blank : Bytes → Bool
unfolding trim_space
blank s = null (trim_space s)

abbrev lower : ℕ → ℕ
lower c = if leb b'A' c && leb c b'Z' then c + 32 else c

abbrev upper : ℕ → ℕ
upper c = if leb b'a' c && leb c b'z' then c - 32 else c

-- strings.ToLower, strings.ToUpper and strings.EqualFold on the ASCII letters; every other byte
-- stands for itself.
unfoldable pub to_lower : Bytes → Bytes
to_lower = map lower

unfoldable pub to_upper : Bytes → Bytes
to_upper = map upper

unfoldable pub equal_fold : Bytes → Bytes → Bool
unfolding to_lower equal
equal_fold a b = equal (to_lower a) (to_lower b)

-- strings.Join
unfoldable pub join : List Bytes → Bytes → Bytes
join [] sep = []
join (w ∷ []) sep = w
join (w ∷ v ∷ ws) sep = w ++ sep ++ join (v ∷ ws) sep
