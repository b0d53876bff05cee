-- ===== src/Rtsp/Response.antt =====
-- sdk/rtsp.go: ParseRTSPResponse and ParseSessionHeader.
pub mod Print
pub mod RoundTrip
use serviceradar_sdk_go.Base.{
  ℕ, ◌+◌, ◌-◌, ◌*◌, ◌^◌, Bool, true, false, not, ◌&&◌, ◌||◌, List, [], ◌∷◌, ◌++◌, Option, none,
  some, ◌==◌, if◌then◌else◌, null, length, take, drop, get_elem?, leb, ltb, Result, ok, err,
}
use serviceradar_sdk_go.Strings.{
  Bytes, str, ℤ, pos, negsuc, is_pos, to_ℕ, is_digit, atoi, equal, has_prefix, cut, split,
  trim_space, to_lower,
}
use serviceradar_sdk_go.Maps.{Dict, insert}
use serviceradar_sdk_go.Rtsp.Error.{RtspError, bad_response}

pub record RtspResponse : Type 0 where
  pub status_code : ℤ
  pub status_line : Bytes
  pub headers : Dict Bytes
  pub body : Bytes
  pub content_length : ℤ

abbrev pub crlf : Bytes
crlf = 13 ∷ 10 ∷ []

-- The value that strconv.Atoi gives beside its error, which the code drops here: 0 for a syntax
-- error, and the nearest int where the digits run over.
unfoldable pub clamped_digits : ℕ → Bytes → Option ℕ
clamped_digits n [] = some n
clamped_digits n (c ∷ s) =
    let next = n * 10 + (c - b'0') in
    let rest = clamped_digits next s in
    if not (is_digit c) then none else if ltb (2 ^ 64 - 1) next then some (2 ^ 64 - 1) else rest

abbrev clamped_int : Bool → Option ℕ → ℤ
clamped_int negative none = pos 0
clamped_int false (some n) = if leb (2 ^ 63) n then pos (2 ^ 63 - 1) else pos n
clamped_int true (some n) =
    if ltb (2 ^ 63) n then negsuc (2 ^ 63 - 1) else if n == 0 then pos 0 else negsuc (n - 1)

abbrev given_digits : Bytes → Option ℕ
given_digits s = if null s then none else clamped_digits 0 s

unfoldable pub atoi_value : Bytes → ℤ
unfolding clamped_digits
atoi_value [] = pos 0
atoi_value (c ∷ s) =
    if c == b'+'
    then clamped_int false (given_digits s)
    else if c == b'-'
    then clamped_int true (given_digits s)
    else clamped_int false (given_digits (c ∷ s))

-- One header line, with the headers and the content length so far.
unfoldable pub read_header : Bytes → Dict Bytes × ℤ → Dict Bytes × ℤ
read_header line (headers, content_length) =
    let (key, value, found) = cut line (str ":") in
    let key = to_lower (trim_space key) in
    let value = trim_space value in
    if not found then (headers, content_length) else (
      insert key value headers,
      if equal key (str "content-length") then atoi_value value else content_length,
    )

unfoldable pub read_headers : List Bytes → Dict Bytes × ℤ → Dict Bytes × ℤ
read_headers [] acc = acc
read_headers (line ∷ lines) acc = read_headers lines (read_header line acc)

abbrev pub cut_body : ℤ → Bytes → Bytes
cut_body content_length body =
    if is_pos content_length && ltb (to_ℕ content_length) (length body)
    then take (to_ℕ content_length) body
    else body

-- The status line has been found to begin with the protocol.
abbrev pub with_status : Bytes → Dict Bytes × ℤ → Bytes → Option ℤ → Result RtspError RtspResponse
with_status status_line (headers, content_length) body none = err bad_response
with_status status_line (headers, content_length) body (some code) = ok (record {
  status_code = code;
  status_line = status_line;
  headers = headers;
  body = cut_body content_length body;
  content_length = content_length;
})

abbrev code_of : Option Bytes → Option ℤ
code_of none = none
code_of (some t) = atoi t

abbrev pub of_lines : List Bytes → Bytes → Result RtspError RtspResponse
of_lines [] body = err bad_response
of_lines (status_line ∷ lines) body =
    if not (has_prefix status_line (str "RTSP/1.0 "))
    then err bad_response
    else with_status status_line (read_headers lines ([], pos 0)) body
        (code_of (get_elem? (split status_line (str " ")) 1))

unfoldable pub parse_rtsp_response : Bytes → Result RtspError RtspResponse
unfolding read_headers
parse_rtsp_response text =
    let (head, body, found) = cut text (crlf ++ crlf) in
    if not found then err bad_response else of_lines (split head crlf) body

unfoldable pub parse_session_header : Bytes → Bytes
parse_session_header value =
    let (session, rest, found) = cut (trim_space value) (str ";") in trim_space session
