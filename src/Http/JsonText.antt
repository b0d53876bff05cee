-- ===== src/Http/JsonText.antt =====
-- The hand-written JSON string encoder of sdk/http.go against a reader of JSON strings.
use serviceradar_sdk_go.Base.{
  ℕ, zero, suc, ◌+◌, ◌-◌, ◌*◌, ◌&&◌, ◌||◌, [], ◌∷◌, ◌++◌, ◌≡◌, ◌∙◌, Option, none, some, ◌==◌,
  if◌then◌else◌, ltb, leb, arith, append_assoc,
}
use serviceradar_sdk_go.Strings.{Bytes}
use serviceradar_sdk_go.Http.{json_byte, json_text, write_json_string}

-- Where the reader stands: in the text, behind a backslash, or in a \u escape with some hex digits
-- to come and the value of those read.
pub data Mode : Type 0 where
  plain escaped : Mode
  hex : ℕ → ℕ → Mode

abbrev push : ℕ → Option (Bytes × Bytes) → Option (Bytes × Bytes)
push c none = none
push c (some (value, rest)) = some (c ∷ value, rest)

hex_value : ℕ → Option ℕ
hex_value c =
    if leb b'0' c && leb c b'9'
    then some (c - b'0')
    else if leb b'a' c && leb c b'f'
    then some (c - b'a' + 10)
    else if leb b'A' c && leb c b'F'
    then some (c - b'A' + 10)
    else none

-- What a byte behind a backslash stands for.
escape_value : ℕ → Option ℕ
escape_value c =
    if c == b'"' || c == b'\\' || c == b'/'
    then some c
    else if c == b'n'
    then some 10
    else if c == b'r'
    then some 13
    else if c == b't'
    then some 9
    else if c == b'b'
    then some 8
    else if c == b'f'
    then some 12
    else none

-- The value of a JSON string behind its opening quote, and the bytes behind its closing quote.
-- Escapes of code points from 128 on, which the encoder never writes, are not read.
unfoldable pub read_text : Mode → Bytes → Option (Bytes × Bytes)
unfolding hex_value escape_value
read_text mode [] = none
read_text plain (c ∷ rest) =
    let to_escape = read_text escaped rest in
    let next = push c (read_text plain rest) in
    if c == b'"'
    then some ([], rest)
    else if c == b'\\'
    then to_escape
    else if ltb c 32
    then none
    else next
read_text escaped (c ∷ rest) =
    let to_hex = read_text (hex 3 0) rest in
    let next = λ (v : ℕ). push v (read_text plain rest) in
    if c == b'u' then to_hex else elim (escape_value c) [ none ↦ none | some v ↦ next v ]
read_text (hex zero acc) (c ∷ rest) =
    let next = λ (v : ℕ). push v (read_text plain rest) in
    elim (hex_value c) [
      | none ↦ none
      | some v ↦ if ltb (acc * 16 + v) 128 then next (acc * 16 + v) else none
    ]
read_text (hex (suc k) acc) (c ∷ rest) =
    let next = λ (v : ℕ). read_text (hex k (acc * 16 + v)) rest in
    elim (hex_value c) [ none ↦ none | some v ↦ next v ]

read-json_byte :
    (c : ℕ) (rest : Bytes) → read_text plain (json_byte c ++ rest) ≡ push c (read_text plain rest)
unfolding read_text json_byte
read-json_byte c rest = ground arith

read-json_text :
    (value rest : Bytes) → read_text plain (json_text value ++ (b'"' ∷ rest)) ≡ some (value, rest)
read-json_text [] rest = unfold read_text json_text in ground arith
read-json_text (c ∷ cs) rest =
    unfold_text c cs rest
    ∙ read-json_byte c (json_text cs ++ (b'"' ∷ rest))
    ∙ rw (read-json_text cs rest)
  where
    unfold_text :
        (c : ℕ) (cs rest : Bytes)
        → read_text plain (json_text (c ∷ cs) ++ (b'"' ∷ rest))
          ≡ read_text plain (json_byte c ++ (json_text cs ++ (b'"' ∷ rest)))
    unfold_text c cs rest = unfold json_text in rw append_assoc

-- A JSON reader gets back every text that the encoder writes, whatever quotes, backslashes and
-- control characters it holds, and stops exactly behind it: no text can end its string early.
pub read-write_json_string :
    (value rest : Bytes)
    → (body : Bytes) × (write_json_string value ++ rest ≡ b'"' ∷ body)
      × (read_text plain body ≡ some (value, rest))
unfolding write_json_string
read-write_json_string value rest =
    (json_text value ++ (b'"' ∷ rest), rw append_assoc, read-json_text value rest)
