-- ===== src/Http/StatusBody.antt =====
-- The response mode status_body: encodeLocalHTTPResponse of sdk/local_host.go writes it, and
-- decodeStatusBodyHTTPResponse of sdk/http.go reads it.
use serviceradar_sdk_go.Base.{
  ℕ, ◌+◌, ◌-◌, ◌*◌, ◌%◌, ◌^◌, ◌<◌, true, false, [], ◌∷◌, ◌++◌, ◌≡◌, refl, ◌∙◌, Option, none, some,
  ◌==◌, if◌then◌else◌, ltb, lt→ltb, null, arith, all,
}
use serviceradar_sdk_go.Strings.{
  Bytes, ℤ, pos, negsuc, is_digit, itoa, itoaℤ, decimal_from, all-itoa, null-itoa, decimal_from-le,
  decimal_from-itoa,
}
use serviceradar_sdk_go.Http.{HttpResponse}

-- An int of 64 bits from its bit pattern.
abbrev to_int64 : ℕ → ℤ
to_int64 n = if ltb n (2 ^ 63) then pos n else negsuc (2 ^ 64 - 1 - n)

-- parseHTTPStatus on digits: `status*10 + int(ch-'0')` wraps in 64 bits. No error can come here,
-- since the caller has seen that every byte is a digit.
unfoldable pub parse_http_status : ℕ → Bytes → ℕ
parse_http_status status [] = status
parse_http_status status (c ∷ cs) = parse_http_status ((status * 10 + (c - b'0')) % 2 ^ 64) cs

-- The loop that looks for the end of the status line; `none` for a byte that is no digit, and for
-- a payload without a line end.
abbrev on_line : ℕ → Option (Bytes × Bytes) → Option (Bytes × Bytes)
on_line c none = none
on_line c (some (line, body)) = some (c ∷ line, body)

unfoldable pub status_line : Bytes → Option (Bytes × Bytes)
status_line [] = none
status_line (c ∷ cs) =
    let rest = on_line c (status_line cs) in
    if c == b'\n' then some ([], cs) else if is_digit c then rest else none

-- `none` where the payload is no status line and body: the flag false.
decode_line : ℕ → Option (Bytes × Bytes) → Option HttpResponse
decode_line duration none = none
decode_line duration (some (line, body)) =
    if null line
    then none
    else some (record {
      status = to_int64 (parse_http_status 0 line);
      headers = [];
      body = body;
      duration = duration;
    })

unfoldable pub decode_status_body : Bytes → ℕ → Option HttpResponse
unfolding decode_line
decode_status_body payload duration = decode_line duration (status_line payload)

-- `strconv.Itoa(response.Status) + "\n"` and the body
unfoldable pub encode_status_body : ℤ → Bytes → Bytes
encode_status_body status body = itoaℤ status ++ (b'\n' ∷ body)

status_line-append :
    (line body : Bytes)
    → all is_digit line ≡ true
    → status_line (line ++ (b'\n' ∷ body)) ≡ some (line, body)
unfolding status_line
status_line-append [] body h = refl
status_line-append (c ∷ cs) body h = ground (arith, status_line-append cs body)

parse_http_status-decimal :
    (s : Bytes) (acc n : ℕ) → decimal_from acc s ≡ some n → n < 2 ^ 64 → parse_http_status acc s ≡ n
parse_http_status-decimal [] acc n h fits = unfold decimal_from parse_http_status in ground arith
parse_http_status-decimal (c ∷ cs) acc n h fits =
    let next = acc * 10 + (c - b'0') in
    let (digit, h') = unfold_cons c cs acc n h in
    let small : next % 2 ^ 64 ≡ next = omega (arith, decimal_from-le cs next n h') in
    step c cs acc n small (parse_http_status-decimal cs next n h' fits)
  where
    unfold_cons :
        (c : ℕ) (cs : Bytes) (acc n : ℕ)
        → decimal_from acc (c ∷ cs) ≡ some n
        → (is_digit c ≡ true) × (decimal_from (acc * 10 + (c - b'0')) cs ≡ some n)
    unfold_cons c cs acc n h = unfold decimal_from in (ground arith, ground arith)

    step :
        (c : ℕ) (cs : Bytes) (acc n : ℕ)
        → (acc * 10 + (c - b'0')) % 2 ^ 64 ≡ acc * 10 + (c - b'0')
        → parse_http_status (acc * 10 + (c - b'0')) cs ≡ n
        → parse_http_status acc (c ∷ cs) ≡ n
    step c cs acc n small ih = unfold parse_http_status in rw small ih

parse-itoa : (n : ℕ) → n < 2 ^ 63 → parse_http_status 0 (itoa n) ≡ n
parse-itoa n h =
    parse_http_status-decimal (itoa n) 0 n (decimal_from-itoa n (omega arith)) (omega arith)

decode_found :
    (line body : Bytes) (duration : ℕ)
    → status_line (line ++ (b'\n' ∷ body)) ≡ some (line, body)
    → null line ≡ false
    → decode_status_body (line ++ (b'\n' ∷ body)) duration
      ≡ some (record {
        status = to_int64 (parse_http_status 0 line);
        headers = [];
        body = body;
        duration = duration;
      })
unfolding decode_status_body
decode_found line body duration e f = rw e (rw f)

decode_lines :
    (line body : Bytes) (n duration : ℕ)
    → n < 2 ^ 63
    → status_line (line ++ (b'\n' ∷ body)) ≡ some (line, body)
    → null line ≡ false
    → parse_http_status 0 line ≡ n
    → decode_status_body (line ++ (b'\n' ∷ body)) duration
      ≡ some (record { status = pos n; headers = []; body = body; duration = duration })
decode_lines line body n duration h e f g =
    let fits : ltb n (2 ^ 63) ≡ true = lt→ltb n (2 ^ 63) h in
    decode_found line body duration e f ∙ rw g (rw fits)

-- The client reads back the status and the body that the local host has written, for every
-- status that is not negative and every body, line ends included.
pub decode-encode_status_body :
    (n : ℕ) (body : Bytes) (duration : ℕ)
    → n < 2 ^ 63
    → decode_status_body (encode_status_body (pos n) body) duration
      ≡ some (record { status = pos n; headers = []; body = body; duration = duration })
unfolding encode_status_body
decode-encode_status_body n body duration h =
    decode_lines (itoa n) body n duration h (status_line-append (itoa n) body (all-itoa n))
      (null-itoa n) (parse-itoa n h)
