-- ===== src/Metric/Wire.antt =====
-- The protobuf wire format, as a reference for the encoder: fields, their bytes, and a parser
-- that takes any message apart.
use mathlib.Core.WellFounded.{Acc}
use native.Mathlib.Decide.{dec_lt}
use native.Mathlib.Bridge.{le_prop}
use mathlib.Core.Logic.{dif_pos, dif_neg}
use serviceradar_sdk_go.Base.{
  ℕ, zero, suc, ◌+◌, ◌-◌, ◌*◌, ◌/◌, ◌%◌, ◌^◌, ◌<◌, ◌≤◌, List, [], ◌∷◌, ◌++◌, ◌≡◌, refl, ap, ◌∙◌,
  Option, none, some, ltb, ◌==◌, if◌then◌else◌, length, take, drop, All, arith, lt_wf, append_assoc,
  length-append, take-append, drop-append,
}
use serviceradar_sdk_go.Strings.{Bytes}
use serviceradar_sdk_go.Metric.Encoder.{uvarint, uvarint_acc, little_endian}

pub data Wire : Type 0 where
  varint : ℕ → Wire
  fixed64 : ℕ → Wire
  chunk : Bytes → Wire

pub record WireField : Type 0 where
  pub number : ℕ
  pub wire : Wire

-- A 64-bit value fits its eight bytes.
abbrev pub IsWire : Wire → Type 0
IsWire (varint n) = Unit {0}
IsWire (fixed64 n) = n < 2 ^ 64
IsWire (chunk b) = Unit {0}

unfoldable pub encode_field : WireField → Bytes
encode_field f = elim f.wire [
  | varint n ↦ uvarint (f.number * 8 + 0) ++ uvarint n
  | fixed64 n ↦ uvarint (f.number * 8 + 1) ++ little_endian 8 n
  | chunk b ↦ uvarint (f.number * 8 + 2) ++ (uvarint (length b) ++ b)
]

unfoldable pub encode_fields : List WireField → Bytes
encode_fields [] = []
encode_fields (f ∷ fs) = encode_field f ++ encode_fields fs

infixl 5 ◌>>=◌
abbrev ◌>>=◌ {ℓ κ} : {A : Type ℓ} {B : Type κ} → Option A → (A → Option B) → Option B
none >>= f = none
some a >>= f = f a

-- The value of a base-128 varint, and the bytes behind it.
pub read_uvarint : Bytes → Option (ℕ × Bytes)
read_uvarint [] = none
read_uvarint (b ∷ bs) =
    let more = (do (n, rest) ← read_uvarint bs; some (b - 128 + 128 * n, rest)) in
    if ltb b 128 then some (b, bs) else more

little_endian_value : Bytes → ℕ
little_endian_value [] = 0
little_endian_value (b ∷ bs) = b + 256 * little_endian_value bs

take_exactly : ℕ → Bytes → Option (Bytes × Bytes)
take_exactly n bs = if ltb (length bs) n then none else some (take n bs, drop n bs)

read_wire : ℕ → Bytes → Option (Wire × Bytes)
read_wire kind bs =
    if kind == 0
    then (do (n, rest) ← read_uvarint bs; some (varint n, rest))
    else if kind == 1
    then (do (b, rest) ← take_exactly 8 bs; some (fixed64 (little_endian_value b), rest))
    else if kind == 2
    then (do (n, r) ← read_uvarint bs; (b, rest) ← take_exactly n r; some (chunk b, rest))
    else none

read_field : Bytes → Option (WireField × Bytes)
read_field bs = do
  (tag, r) ← read_uvarint bs
  (w, rest) ← read_wire (tag % 8) r
  some (record { number = tag / 8; wire = w }, rest)

parse_fuel : ℕ → Bytes → Option (List WireField)
parse_fuel fuel [] = some []
parse_fuel zero (b ∷ bs) = none
parse_fuel (suc fuel) (b ∷ bs) = do
  (f, rest) ← read_field (b ∷ bs)
  fs ← parse_fuel fuel rest
  some (f ∷ fs)

-- Every field takes a byte at least, so as many rounds as bytes are enough.
pub parse : Bytes → Option (List WireField)
parse bs = parse_fuel (length bs) bs

read-uvarint_acc :
    (x : ℕ) (w : Acc ◌<◌ x) (rest : Bytes) → read_uvarint (uvarint_acc x w ++ rest) ≡ some (x, rest)
unfolding read_uvarint uvarint_acc
read-uvarint_acc x (Acc.intro _ smaller) rest = elim (dec_lt 127 x) [
  | yes more ↦
      rw (dif_pos _ le_prop more)
        (rw (read-uvarint_acc (x / 128) (smaller (x / 128) (omega arith)) rest) (ground arith))
  | no done ↦ rw (dif_neg _ done) (ground arith)
]

pub read-uvarint : (x : ℕ) (rest : Bytes) → read_uvarint (uvarint x ++ rest) ≡ some (x, rest)
unfolding uvarint
read-uvarint x rest = read-uvarint_acc x (lt_wf.apply x) rest

length-uvarint : (x : ℕ) (w : Acc ◌<◌ x) → 0 < length (uvarint_acc x w)
unfolding uvarint_acc
length-uvarint x (Acc.intro _ smaller) = elim (dec_lt 127 x) [
  | yes more ↦ rw (dif_pos _ le_prop more) (omega arith)
  | no done ↦ rw (dif_neg _ done) (omega arith)
]

length-little_endian : (k n : ℕ) → length (little_endian k n) ≡ k
unfolding little_endian
length-little_endian zero n = refl
length-little_endian (suc k) n = ap suc (length-little_endian k (n / 256))

little_endian_eight : (n : ℕ) → n < 2 ^ 64 → little_endian_value (little_endian 8 n) ≡ n
unfolding little_endian little_endian_value
little_endian_eight n h = omega arith

take_exactly-append :
    (n : ℕ) (b rest : Bytes) → length b ≡ n → take_exactly n (b ++ rest) ≡ some (b, rest)
unfolding take_exactly
take_exactly-append n b rest h =
    rw (← h) (rw (take-append b rest, drop-append b rest, length-append b rest) (ground arith))

read_field-tag :
    (number kind : ℕ) (r : Bytes) (w : Wire) (rest : Bytes)
    → kind < 8
    → read_wire kind r ≡ some (w, rest)
    → read_field (uvarint (number * 8 + kind) ++ r)
      ≡ some (record { number = number; wire = w }, rest)
unfolding read_field
read_field-tag number kind r w rest h e =
    let low : (number * 8 + kind) % 8 ≡ kind = omega arith in
    let high : (number * 8 + kind) / 8 ≡ number = omega arith in
    rw (read-uvarint (number * 8 + kind) r) (rw low (rw high (rw e)))

read_wire-varint : (n : ℕ) (rest : Bytes) → read_wire 0 (uvarint n ++ rest) ≡ some (varint n, rest)
unfolding read_wire
read_wire-varint n rest = rw (read-uvarint n rest)

read_wire-fixed64 :
    (n : ℕ) (rest : Bytes)
    → n < 2 ^ 64
    → read_wire 1 (little_endian 8 n ++ rest) ≡ some (fixed64 n, rest)
unfolding read_wire
read_wire-fixed64 n rest h =
    rw (take_exactly-append 8 (little_endian 8 n) rest (length-little_endian 8 n))
      (rw (little_endian_eight n h))

read_wire-chunk :
    (b rest : Bytes) → read_wire 2 (uvarint (length b) ++ (b ++ rest)) ≡ some (chunk b, rest)
unfolding read_wire
read_wire-chunk b rest =
    rw (read-uvarint (length b) (b ++ rest)) (rw (take_exactly-append (length b) b rest refl))

read-encode_field :
    (number : ℕ) (w : Wire) (rest : Bytes)
    → IsWire w
    → read_field (encode_field (record { number = number; wire = w }) ++ rest)
      ≡ some (record { number = number; wire = w }, rest)
unfolding encode_field
read-encode_field number (varint n) rest v = rw append_assoc (
    read_field-tag number 0 (uvarint n ++ rest) (varint n) rest (omega arith)
      (read_wire-varint n rest))
read-encode_field number (fixed64 n) rest v = rw append_assoc (
    read_field-tag number 1 (little_endian 8 n ++ rest) (fixed64 n) rest (omega arith)
      (read_wire-fixed64 n rest v))
read-encode_field number (chunk b) rest v = simp append_assoc (
    read_field-tag number 2 (uvarint (length b) ++ (b ++ rest)) (chunk b) rest (omega arith)
      (read_wire-chunk b rest))

-- A field takes at least one byte.
encode_field-pos :
    (number : ℕ) (w : Wire) → 0 < length (encode_field (record { number = number; wire = w }))
unfolding encode_field uvarint
encode_field-pos number (varint n) = omega (
  arith,
  length-append (uvarint (number * 8 + 0)) (uvarint n),
  length-uvarint (number * 8 + 0) (lt_wf.apply (number * 8 + 0)),
)
encode_field-pos number (fixed64 n) = omega (
  arith,
  length-append (uvarint (number * 8 + 1)) (little_endian 8 n),
  length-uvarint (number * 8 + 1) (lt_wf.apply (number * 8 + 1)),
)
encode_field-pos number (chunk b) = omega (
  arith,
  length-append (uvarint (number * 8 + 2)) (uvarint (length b) ++ b),
  length-uvarint (number * 8 + 2) (lt_wf.apply (number * 8 + 2)),
)

abbrev pub AreWires : List WireField → Type 0
AreWires = All (λ f. IsWire f.wire)

-- A round on a message that is not empty.
parse_fuel-cons :
    (fuel : ℕ) (bs : Bytes) (f : WireField) (rest : Bytes)
    → 0 < length bs
    → read_field bs ≡ some (f, rest)
    → parse_fuel (suc fuel) bs ≡ (parse_fuel fuel rest >>= λ fs. some (f ∷ fs))
unfolding parse_fuel
parse_fuel-cons fuel [] f rest h e = elim h [ ]
parse_fuel-cons fuel (b ∷ bs) f rest h e = rw e

parse_fuel-encode :
    (fs : List WireField) (fuel : ℕ)
    → length (encode_fields fs) ≤ fuel
    → AreWires fs
    → parse_fuel fuel (encode_fields fs) ≡ some fs
unfolding encode_fields
parse_fuel-encode [] fuel h v = unfold parse_fuel in refl
parse_fuel-encode (f ∷ fs) zero h v = absurd (
    omega
      (arith, encode_field-pos f.number f.wire, length-append (encode_field f) (encode_fields fs)))
parse_fuel-encode (f ∷ fs) (suc fuel) h v =
    let more = length-append (encode_field f) (encode_fields fs) in
    let one = encode_field-pos f.number f.wire in
    parse_fuel-cons fuel (encode_field f ++ encode_fields fs) f (encode_fields fs)
      (omega (arith, more, one)) (read-encode_field f.number f.wire (encode_fields fs) v.0)
    ∙ rw (parse_fuel-encode fs fuel (omega (arith, more, one)) v.1)

-- The parser takes every encoded list of fields apart.
pub parse-encode_fields : (fs : List WireField) → AreWires fs → parse (encode_fields fs) ≡ some fs
unfolding parse
parse-encode_fields fs v = parse_fuel-encode fs (length (encode_fields fs)) (omega arith) v

pub encode_fields-append :
    (xs ys : List WireField) → encode_fields (xs ++ ys) ≡ encode_fields xs ++ encode_fields ys
unfolding encode_fields
encode_fields-append [] ys = refl
encode_fields-append (x ∷ xs) ys = rw (encode_fields-append xs ys) (rw append_assoc)
