-- ===== src/Strings/Digits.antt =====
-- strconv.Itoa and strconv.Atoi undo each other.
use serviceradar_sdk_go.Base.{
  ℕ, zero, suc, ◌+◌, ◌-◌, ◌*◌, ◌/◌, ◌%◌, ◌^◌, ◌<◌, ◌≤◌, true, false, [], ◌∷◌, ◌≡◌, refl, some, ◌==◌,
  ltb, null, all, arith, Bool-cases, inl, inr,
}
use serviceradar_sdk_go.Strings.Text.{Bytes}
use serviceradar_sdk_go.Strings.Numbers.{
  pos, is_digit, itoa, digits_from, decimal_from, unsigned, non_negative, atoi, decimal-digits_from,
}

all-digits_from :
    (f n : ℕ) (acc : Bytes) → all is_digit acc ≡ true → all is_digit (digits_from f n acc) ≡ true
unfolding digits_from
all-digits_from zero n acc h = h
all-digits_from (suc f) n acc h =
    let acc' = (b'0' + n % 10) ∷ acc in
    let digit : is_digit (b'0' + n % 10) ≡ true = ground arith in
    let more : all is_digit acc' ≡ true = rw digit h in
    elim (Bool-cases (n / 10 == 0)) [
      | inl e ↦ rw e more
      | inr e ↦ rw e (all-digits_from f (n / 10) acc' more)
    ]

pub all-itoa : (n : ℕ) → all is_digit (itoa n) ≡ true
unfolding itoa
all-itoa n = all-digits_from 20 n [] refl

null-digits_from : (f n : ℕ) (acc : Bytes) → null acc ≡ false → null (digits_from f n acc) ≡ false
unfolding digits_from
null-digits_from zero n acc h = h
null-digits_from (suc f) n acc h = elim (Bool-cases (n / 10 == 0)) [
  | inl e ↦ rw e
  | inr e ↦ rw e (null-digits_from f (n / 10) ((b'0' + n % 10) ∷ acc) refl)
]

pub null-itoa : (n : ℕ) → null (itoa n) ≡ false
unfolding itoa digits_from
null-itoa n = elim (Bool-cases (n / 10 == 0)) [
  | inl e ↦ rw e
  | inr e ↦ rw e (null-digits_from 19 (n / 10) ((b'0' + n % 10) ∷ []) refl)
]

pub decimal_from-le : (s : Bytes) (acc n : ℕ) → decimal_from acc s ≡ some n → acc ≤ n
unfolding decimal_from
decimal_from-le [] acc n h = ground arith
decimal_from-le (c ∷ cs) acc n h = ground (arith, decimal_from-le cs (acc * 10 + (c - b'0')) n)

pub decimal_from-itoa : (n : ℕ) → n < 2 ^ 64 → decimal_from 0 (itoa n) ≡ some n
unfolding itoa decimal_from
decimal_from-itoa n h = decimal-digits_from 20 n [] (omega arith)

-- The sign tests of Atoi pass over a digit.
atoi_digits :
    (s : Bytes) (n : ℕ)
    → null s ≡ false
    → all is_digit s ≡ true
    → decimal_from 0 s ≡ some n
    → n < 2 ^ 63
    → atoi s ≡ some (pos n)
unfolding atoi unsigned non_negative
atoi_digits [] n g a d h = absurd cc
atoi_digits (c ∷ s) n g a d h =
    let plus : (c == b'+') ≡ false = ground arith in
    let minus : (c == b'-') ≡ false = ground arith in
    let small : ltb n (2 ^ 63) ≡ true = ground arith in rw (plus, minus, d, small) refl

pub atoi-itoa : (n : ℕ) → n < 2 ^ 63 → atoi (itoa n) ≡ some (pos n)
atoi-itoa n h =
    atoi_digits (itoa n) n (null-itoa n) (all-itoa n) (decimal_from-itoa n (omega arith)) h
