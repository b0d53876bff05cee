-- ===== src/Rtsp/Response/Print.antt =====
-- A response of sdk/rtsp.go as a server prints it, and how its header lines are read.
use serviceradar_sdk_go.Base.{
  ℕ, ◌+◌, ◌-◌, ◌*◌, ◌^◌, ◌<◌, true, false, [], ◌∷◌, ◌++◌, ◌≡◌, refl, ap, ◌∙◌, some, ◌==◌,
  if◌then◌else◌, null, length, leb, all, All, arith, map,
}
use serviceradar_sdk_go.Strings.{
  Bytes, str, ℤ, pos, is_digit, itoa, decimal_from, decimal_from-le, decimal_from-itoa, all-itoa,
  null-itoa, equal, trim_space, trim_space-visible, visible, to_lower, join, IsFree-apart,
  cut-IsFree,
}
use serviceradar_sdk_go.Maps.{Dict, insert}
use serviceradar_sdk_go.Rtsp.Response.{crlf, clamped_digits, atoi_value, read_header, read_headers}

-- A response as a server writes it, with the length of its body as its last header.
abbrev pub status_line : ℕ → Bytes → Bytes
status_line code reason = str "RTSP/1.0 " ++ (itoa code ++ (str " " ++ reason))

abbrev pub header_text : Bytes × Bytes → Bytes
header_text (key, value) = key ++ (str ": " ++ value)

abbrev pub length_header : Bytes → Bytes × Bytes
length_header body = (str "content-length", itoa (length body))

abbrev pub with_length : Dict Bytes → Bytes → Dict Bytes
with_length headers body = headers ++ (length_header body ∷ [])

abbrev pub print_response : ℕ → Bytes → Dict Bytes → Bytes → Bytes
print_response code reason headers body =
    join (status_line code reason ∷ map header_text (with_length headers body)) crlf
    ++ ((crlf ++ crlf) ++ body)

-- No carriage return.
abbrev pub OneLine : Bytes → Type 0
OneLine = All (λ c. (c == 13) ≡ false)

-- A header that is read as it is written.
pub record IsHeader (entry : Bytes × Bytes) : Type 0 where
  pub key_line : OneLine entry.0
  pub key_colon : All (λ c. (c == b':') ≡ false) entry.0
  pub key_given : null entry.0 ≡ false
  pub key_trimmed : trim_space entry.0 ≡ entry.0
  pub key_lower : to_lower entry.0 ≡ entry.0
  pub value_line : OneLine entry.1
  pub value_trimmed : trim_space entry.1 ≡ entry.1

-- The map that the headers build in their order.
abbrev pub insert_all : Dict Bytes → Dict Bytes → Dict Bytes
insert_all [] m = m
insert_all ((key, value) ∷ headers) m = insert_all headers (insert key value m)

clamped_digits-decimal :
    (s : Bytes) (acc n : ℕ)
    → decimal_from acc s ≡ some n
    → n < 2 ^ 64
    → clamped_digits acc s ≡ some n
unfolding clamped_digits decimal_from
clamped_digits-decimal [] acc n h l = h
clamped_digits-decimal (c ∷ s) acc n h l =
    let next = acc * 10 + (c - b'0') in
    let ih = clamped_digits-decimal s next n in
    let small = decimal_from-le s next n in ground (arith, ih, small)

value_digits :
    (s : Bytes) (n : ℕ)
    → null s ≡ false
    → all is_digit s ≡ true
    → decimal_from 0 s ≡ some n
    → n < 2 ^ 63
    → atoi_value s ≡ pos n
unfolding atoi_value
value_digits [] n g a d h = absurd cc
value_digits (c ∷ s) n g a d h =
    let plus : (c == b'+') ≡ false = ground arith in
    let minus : (c == b'-') ≡ false = ground arith in
    let whole = clamped_digits-decimal (c ∷ s) 0 n d (omega arith) in
    let big : leb (2 ^ 63) n ≡ false = ground arith in rw (plus, minus, whole, big) refl

atoi_value-itoa : (n : ℕ) → n < 2 ^ 63 → atoi_value (itoa n) ≡ pos n
atoi_value-itoa n h =
    value_digits (itoa n) n (null-itoa n) (all-itoa n) (decimal_from-itoa n (omega arith)) h

trim_one : (v : Bytes) → trim_space (32 ∷ v) ≡ trim_space v
unfolding trim_space
trim_one v = refl

read_header-text :
    (entry : Bytes × Bytes) (m : Dict Bytes) (n : ℤ)
    → IsHeader entry
    → read_header (header_text entry) (m, n) ≡ (
      insert entry.0 entry.1 m,
      if equal entry.0 (str "content-length") then atoi_value entry.1 else n,
    )
unfolding read_header
read_header-text (key, value) m n h =
    let found =
      cut-IsFree b':' [] key (32 ∷ value)
        (IsFree-apart b':' [] key (str ":" ++ (32 ∷ value)) h.key_colon) in
    let spaced : trim_space (32 ∷ value) ≡ value = trim_one value ∙ h.value_trimmed in
    rw (found, h.key_trimmed, h.key_lower, spaced) refl

pub digits-apart :
    (x : ℕ) (s : Bytes) → is_digit x ≡ false → all is_digit s ≡ true → All (λ c. (c == x) ≡ false) s
digits-apart x [] n h = tt
digits-apart x (c ∷ s) n h = (ground arith, digits-apart x s n (ground arith))

digits-visible : (s : Bytes) → all is_digit s ≡ true → all visible s ≡ true
digits-visible [] h = refl
digits-visible (c ∷ s) h = ground (arith, digits-visible s)

pub length_header-IsHeader : (body : Bytes) → IsHeader (length_header body)
unfolding trim_space to_lower
length_header-IsHeader body = record {
  key_line = (
    refl,
    (
      refl,
      (
        refl,
        (refl, (refl, (refl, (refl, (refl, (refl, (refl, (refl, (refl, (refl, (refl, tt))))))))))),
      ),
    ),
  );
  key_colon = (
    refl,
    (
      refl,
      (
        refl,
        (refl, (refl, (refl, (refl, (refl, (refl, (refl, (refl, (refl, (refl, (refl, tt))))))))))),
      ),
    ),
  );
  key_given = refl;
  key_trimmed = refl;
  key_lower = refl;
  value_line = digits-apart 13 (itoa (length body)) refl (all-itoa (length body));
  value_trimmed =
      trim_space-visible (itoa (length body))
        (digits-visible (itoa (length body)) (all-itoa (length body)));
}

pub read_headers-with_length :
    (headers : Dict Bytes) (body : Bytes) (m : Dict Bytes) (n : ℤ)
    → All IsHeader headers
    → length body < 2 ^ 63
    → read_headers (map header_text (with_length headers body)) (m, n)
      ≡ (insert_all (with_length headers body) m, pos (length body))
unfolding read_headers equal
read_headers-with_length [] body m n h l =
    read_header-text (length_header body) m n (length_header-IsHeader body)
    ∙ ap (λ z. (insert (str "content-length") (itoa (length body)) m, z))
        (atoi_value-itoa (length body) l)
read_headers-with_length (entry ∷ headers) body m n (i, h) l =
    ap (λ acc. read_headers (map header_text (with_length headers body)) acc)
      (read_header-text entry m n i)
    ∙ read_headers-with_length headers body _ _ h l
