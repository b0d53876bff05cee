-- ===== src/LocalInputs/Reading.antt =====
-- sdk/local_inputs.go: single-quoted entries of an environment file are read as they are written.
use mathlib.Core.List.{reverse, reverse-append, reverse-reverse}
use serviceradar_sdk_go.Base.{
  ℕ, ◌-◌, true, false, not, [], ◌∷◌, ◌++◌, ◌≡◌, refl, sym, Option, some, ◌==◌, null, length,
  length-append, take-append, get_or, all, All, append_assoc, arith, map, ok,
}
use serviceradar_sdk_go.Strings.{
  Bytes, str, has_prefix, any_of, trim_prefix, cut, trim_space, trim_front, space_width,
  space_width_back, visible, trim_space-visible, IsFree-apart, cut-IsFree,
}
use serviceradar_sdk_go.Maps.{Dict, insert}
use serviceradar_sdk_go.LocalInputs.{
  key_byte, valid_local_env_key, parse_local_env_value, read_env_line, read_env_lines,
}

-- KEY='value'
abbrev pub env_line : Bytes × Bytes → Bytes
env_line (key, value) = key ++ (str "=" ++ (b'\'' ∷ (value ++ (b'\'' ∷ []))))

abbrev pub insert_entries : Dict Bytes → Dict Bytes → Dict Bytes
insert_entries [] m = m
insert_entries ((key, value) ∷ entries) m = insert_entries entries (insert key value m)

front_kept : (c : ℕ) (s : Bytes) → visible c ≡ true → trim_front space_width 0 (c ∷ s) ≡ c ∷ s
unfolding trim_front space_width
front_kept c s h = ground arith

back_kept : (c : ℕ) (s : Bytes) → visible c ≡ true → trim_front space_width_back 0 (c ∷ s) ≡ c ∷ s
unfolding trim_front space_width_back
back_kept c s h = ground arith

-- A text that begins and ends with visible characters.
trim_space-ends :
    (c d : ℕ) (s : Bytes)
    → visible c ≡ true
    → visible d ≡ true
    → trim_space (c ∷ (s ++ (d ∷ []))) ≡ c ∷ (s ++ (d ∷ []))
unfolding trim_space
trim_space-ends c d s h k =
    let turned : reverse (c ∷ (s ++ (d ∷ []))) ≡ d ∷ reverse (c ∷ s) =
      reverse-append (c ∷ s) (d ∷ []) in
    rw (front_kept c (s ++ (d ∷ [])) h, turned, back_kept d (reverse (c ∷ s)) k, sym turned)
      (reverse-reverse _)

key-visible : (s : Bytes) → all key_byte s ≡ true → all visible s ≡ true
key-visible [] h = refl
key-visible (c ∷ s) h = ground (arith, key-visible s)

key-apart : (s : Bytes) → all key_byte s ≡ true → All (λ c. (c == b'=') ≡ false) s
key-apart [] h = tt
key-apart (c ∷ s) h = (ground arith, key-apart s (ground arith))

-- A prefix that holds a space and no equals sign is none of a key and what follows it.
no_prefix :
    (key p t : Bytes)
    → all key_byte key ≡ true
    → all (λ x. not (x == b'=')) p ≡ true
    → any_of 32 p ≡ true
    → has_prefix (key ++ (b'=' ∷ t)) p ≡ false
unfolding has_prefix any_of
no_prefix key [] t h e s = cc
no_prefix [] (x ∷ p) t h e s = ground arith
no_prefix (c ∷ key) (x ∷ p) t h e s = ground (arith, no_prefix key p t)

last_lem : (v : Bytes) (d : ℕ) → get_or (v ++ (d ∷ [])) (length v) 0 ≡ d
last_lem [] d = refl
last_lem (c ∷ v) d = last_lem v d

parse_local_env_value-quoted :
    (unquote : Bytes → Option Bytes) (v : Bytes)
    → parse_local_env_value unquote (b'\'' ∷ (v ++ (b'\'' ∷ []))) ≡ some v
unfolding parse_local_env_value
parse_local_env_value-quoted unquote v =
    let total = length-append v (b'\'' ∷ []) in
    let e : length (v ++ (b'\'' ∷ [])) - 1 ≡ length v = omega (arith, total) in
    let given : null (v ++ (b'\'' ∷ [])) ≡ false = null_snoc v in
    rw (given, e, last_lem v b'\'', take-append v (b'\'' ∷ [])) refl
  where
    null_snoc : (v : Bytes) → null (v ++ (b'\'' ∷ [])) ≡ false
    null_snoc [] = refl
    null_snoc (c ∷ v) = refl

read_env_line-quoted :
    (unquote : Bytes → Option Bytes) (key value : Bytes) (entries : Dict Bytes)
    → valid_local_env_key key ≡ true
    → read_env_line unquote (env_line (key, value)) entries ≡ ok (insert key value entries)
unfolding read_env_line trim_prefix valid_local_env_key has_prefix any_of
read_env_line-quoted unquote [] value entries h = cc
read_env_line-quoted unquote (c ∷ key) value entries h =
    let quoted : Bytes = b'\'' ∷ (value ++ (b'\'' ∷ [])) in
    let line : Bytes = env_line (c ∷ key, value) in
    let bytes : all key_byte (c ∷ key) ≡ true = ground arith in
    let assoc : (key ++ (b'=' ∷ b'\'' ∷ value)) ++ (b'\'' ∷ []) ≡ key ++ (b'=' ∷ quoted) =
      append_assoc key (b'=' ∷ b'\'' ∷ value) (b'\'' ∷ []) in
    let trimmed : trim_space line ≡ line =
      rw assoc at (trim_space-ends c b'\'' (key ++ (b'=' ∷ b'\'' ∷ value)) (ground arith) refl) in
    let exported : has_prefix line (str "export ") ≡ false =
      no_prefix (c ∷ key) (str "export ") quoted bytes refl refl in
    let found : cut line (str "=") ≡ (c ∷ key, quoted, true) =
      cut-IsFree b'=' [] (c ∷ key) quoted
        (IsFree-apart b'=' [] (c ∷ key) (b'=' ∷ quoted) (key-apart (c ∷ key) bytes)) in
    let comment : has_prefix line (str "#") ≡ false = ground arith in
    let named : trim_space (c ∷ key) ≡ c ∷ key =
      trim_space-visible (c ∷ key) (key-visible (c ∷ key) bytes) in
    let kept : trim_space quoted ≡ quoted = trim_space-ends b'\'' b'\'' value refl refl in
    rw
      (
        read_env_line,
        trimmed,
        exported,
        trimmed,
        found,
        comment,
        named,
        h,
        kept,
        parse_local_env_value-quoted unquote value,
      )
      refl

-- An environment file of lines KEY='value', with valid keys, is read as the map that its entries
-- build in their order, whatever the values are, quotes, comment signs and white space included.
pub read_env_lines-quoted :
    (unquote : Bytes → Option Bytes) (entries : Dict Bytes)
    → All (λ entry. valid_local_env_key entry.0 ≡ true) entries
    → read_env_lines unquote (map env_line entries) [] ≡ ok (insert_entries entries [])
unfolding read_env_lines
read_env_lines-quoted unquote entries h = from entries [] h
  where
    from :
        (entries m : Dict Bytes)
        → All (λ entry. valid_local_env_key entry.0 ≡ true) entries
        → read_env_lines unquote (map env_line entries) m ≡ ok (insert_entries entries m)
    from [] m h = refl
    from ((key, value) ∷ entries) m (k, h) =
        rw (read_env_lines, read_env_line-quoted unquote key value m k)
          (from entries (insert key value m) h)
