-- ===== src/Strings/Numbers.antt =====
-- strconv.Itoa and strconv.Atoi, on a 64-bit int.
use native.Mathlib.Nat.{pow-suc}
use serviceradar_sdk_go.Base.{
  ℕ, zero, suc, ◌+◌, ◌-◌, ◌*◌, ◌/◌, ◌%◌, ◌^◌, ◌<◌, Bool, true, false, ◌&&◌, [], ◌∷◌, ◌≡◌, Option,
  none, some, arith, leb, ltb, ◌==◌, if◌then◌else◌, null, refl,
}
use serviceradar_sdk_go.Strings.Text.{Bytes}

-- Go's signed integers; `negsuc n` is -(n + 1).
pub data ℤ : Type 0 where
  pos : ℕ → ℤ
  negsuc : ℕ → ℤ

abbrev pub is_neg : ℤ → Bool
is_neg (pos n) = false
is_neg (negsuc n) = true

-- The value where it is not negative, and 0 elsewhere.
abbrev pub to_ℕ : ℤ → ℕ
to_ℕ (pos n) = n
to_ℕ (negsuc n) = 0

-- `int32(n)` of a length, which wraps
unfoldable pub int32_of : ℕ → ℤ
int32_of n = let m = n % 2 ^ 32 in if ltb m (2 ^ 31) then pos m else negsuc (2 ^ 32 - 1 - m)

pub int32_of_lem : (n : ℕ) → n < 2 ^ 31 → int32_of n ≡ pos n
unfolding int32_of
int32_of_lem n h =
    let same : n % 2 ^ 32 ≡ n = omega arith in
    let below : ltb n (2 ^ 31) ≡ true = ground arith in rw (same, below) refl

abbrev pub is_pos : ℤ → Bool
is_pos z = ltb 0 (to_ℕ z)

abbrev pub eqℤ : ℤ → ℤ → Bool
eqℤ (pos m) (pos n) = m == n
eqℤ (negsuc m) (negsuc n) = m == n
eqℤ (pos m) (negsuc n) = false
eqℤ (negsuc m) (pos n) = false

abbrev pub is_digit : ℕ → Bool
is_digit c = leb b'0' c && leb c b'9'

-- The decimal digits of a number, at most as many as the fuel.
unfoldable pub digits_from : ℕ → ℕ → Bytes → Bytes
digits_from zero n acc = acc
digits_from (suc f) n acc =
    let acc' = (b'0' + n % 10) ∷ acc in
    let rest = digits_from f (n / 10) acc' in if n / 10 == 0 then acc' else rest

-- strconv.Itoa and %d: a number of 64 bits has at most 20 digits
unfoldable pub itoa : ℕ → Bytes
itoa n = digits_from 20 n []

abbrev pub itoaℤ : ℤ → Bytes
itoaℤ (pos n) = itoa n
itoaℤ (negsuc n) = b'-' ∷ itoa (n + 1)

-- `status = status * 10 + int(ch - '0')` over a run of digits; `none` where another byte stands
unfoldable pub decimal_from : ℕ → Bytes → Option ℕ
decimal_from acc [] = some acc
decimal_from acc (c ∷ s) =
    let rest = decimal_from (acc * 10 + (c - b'0')) s in if is_digit c then rest else none

unfoldable pub unsigned : Bytes → Option ℕ
unfolding decimal_from
unsigned s = if null s then none else decimal_from 0 s

unfoldable pub non_negative : Option ℕ → Option ℤ
non_negative none = none
non_negative (some n) = if ltb n (2 ^ 63) then some (pos n) else none

negative : Option ℕ → Option ℤ
negative none = none
negative (some n) =
    if n == 0 then some (pos 0) else if leb n (2 ^ 63) then some (negsuc (n - 1)) else none

-- strconv.Atoi: `none` for its error; the range is that of int64
unfoldable pub atoi : Bytes → Option ℤ
unfolding unsigned non_negative negative
atoi [] = none
atoi (c ∷ s) =
    if c == b'+'
    then non_negative (unsigned s)
    else if c == b'-'
    then negative (unsigned s)
    else non_negative (unsigned (c ∷ s))

-- The digits that are written before `acc` stand for the number.
pub decimal-digits_from :
    (f n : ℕ) (acc : Bytes) → n < 10 ^ f → decimal_from 0 (digits_from f n acc) ≡ decimal_from n acc
unfolding digits_from decimal_from
decimal-digits_from zero n acc h = ground arith
decimal-digits_from (suc f) n acc h =
    let smaller : n / 10 < 10 ^ f = omega (arith, pow-suc 10 f) in
    let ih = decimal-digits_from f (n / 10) ((b'0' + n % 10) ∷ acc) smaller in ground (arith, ih)
