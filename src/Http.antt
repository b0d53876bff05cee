-- ===== src/Http.antt =====
-- sdk/http.go: host-proxied HTTP requests. encoding/json, encoding/base64 and the host call are
-- parameters; a duration is a number of nanoseconds.
pub mod JsonText
pub mod StatusBody
pub mod Client
pub mod Local
use serviceradar_sdk_go.Base.{
  ℕ, zero, suc, ◌+◌, ◌-◌, ◌*◌, ◌/◌, ◌%◌, ◌^◌, Bool, true, false, not, ◌&&◌, ◌||◌, List, [], ◌∷◌,
  ◌++◌, Option, none, some, ◌==◌, if◌then◌else◌, null, ltb, leb,
}
use serviceradar_sdk_go.Strings.{
  Bytes, str, ℤ, pos, negsuc, is_digit, is_pos, to_ℕ, itoa, equal, equal_fold, trim_space, to_upper,
  unsigned,
}
use serviceradar_sdk_go.Maps.{Dict, lookup}

pub record HttpRequest : Type 0 where
  pub method : Bytes
  pub url : Bytes
  pub headers : Dict Bytes
  pub body : Bytes
  pub body_base64 : Bool
  pub response_mode : Bytes
  pub timeout_ms : ℤ
  pub insecure_skip_verify : Bool

pub record HttpResponse : Type 0 where
  pub status : ℤ
  pub headers : Dict Bytes
  pub body : Bytes
  pub duration : ℕ

pub record HttpRequestPayload : Type 0 where
  pub method : Bytes
  pub url : Bytes
  pub headers : Dict Bytes
  pub body : Bytes
  pub body_base64 : Bytes
  pub response_mode : Bytes
  pub timeout_ms : ℤ
  pub insecure_skip_verify : Bool

abbrev pub response_mode_status_body : Bytes
response_mode_status_body = str "status_body"

-- The second loop of Header.
unfoldable pub header_fold : Bytes → Dict Bytes → Bytes
header_fold name [] = []
header_fold name ((key, value) ∷ rest) =
    if equal_fold key name then value else header_fold name rest

unfoldable pub header : Option HttpResponse → Bytes → Bytes
unfolding header_fold
header none name = []
header (some r) name = elim (lookup name r.headers) [
  | some value ↦ value
  | none ↦ header_fold name r.headers
]

-- `1<<63 - 1` nanoseconds, in whole seconds
abbrev pub max_seconds : ℕ
max_seconds = (2 ^ 63 - 1) / 1000000000

-- The test behind strconv.ParseInt, whose error is `none` or a number of 2^63 or more.
unfoldable pub seconds : Option ℕ → Option ℕ
seconds none = none
seconds (some n) = if leb (2 ^ 63) n || ltb max_seconds n then none else some (n * 1000000000)

-- `none` is the flag false. `parse_time` is http.ParseTime, and `at.Sub(now)` is not negative here.
unfoldable pub retry_after_value : (Bytes → Option ℕ) → ℕ → Bytes → Option ℕ
retry_after_value parse_time now [] = none
retry_after_value parse_time now (c ∷ cs) =
    if is_digit c
    then seconds (unsigned (c ∷ cs))
    else elim (parse_time (c ∷ cs)) [ none ↦ none | some at ↦ some (at - now) ]

unfoldable pub retry_after_at : (Bytes → Option ℕ) → ℕ → Option HttpResponse → Option ℕ
unfolding retry_after_value
retry_after_at parse_time now r =
    retry_after_value parse_time now (trim_space (header r (str "Retry-After")))

hex_digit : ℕ → ℕ
hex_digit n = if ltb n 10 then b'0' + n else b'a' + (n - 10)

-- The bytes that one byte of a JSON string is written as.
unfoldable pub json_byte : ℕ → Bytes
unfolding hex_digit
json_byte c =
    if c == b'\\' || c == b'"'
    then b'\\' ∷ c ∷ []
    else if c == b'\n'
    then str "\\n"
    else if c == 13
    then str "\\r"
    else if c == b'\t'
    then str "\\t"
    else if ltb c 32
    then str "\\u00" ++ (hex_digit (c / 16) ∷ hex_digit (c % 16) ∷ [])
    else c ∷ []

unfoldable pub json_text : Bytes → Bytes
json_text [] = []
json_text (c ∷ cs) = json_byte c ++ json_text cs

-- writeJSONString
unfoldable pub write_json_string : Bytes → Bytes
write_json_string value = b'"' ∷ (json_text value ++ (b'"' ∷ []))

header_members : Bool → Dict Bytes → Bytes
header_members first [] = []
header_members first ((key, value) ∷ rest) =
    (if first then [] else str ",")
    ++ (write_json_string key
        ++ (str ":" ++ (write_json_string value ++ header_members false rest)))

unfoldable pub marshal_http_request_payload : HttpRequestPayload → Bytes
unfolding header_members
marshal_http_request_payload p =
    str "{\"method\":"
    ++ (write_json_string p.method
        ++ (str ",\"url\":"
            ++ (write_json_string p.url
                ++ ((if null p.headers
                      then []
                      else str ",\"headers\":{" ++ (header_members true p.headers ++ str "}"))
                    ++ ((if null p.body then [] else str ",\"body\":" ++ write_json_string p.body)
                        ++ ((if null p.body_base64
                              then []
                              else str ",\"body_base64\":" ++ write_json_string p.body_base64)
                            ++ ((if null p.response_mode
                                  then []
                                  else str ",\"response_mode\":"
                                    ++ write_json_string p.response_mode)
                                ++ ((if is_pos p.timeout_ms
                                      then str ",\"timeout_ms\":" ++ itoa (to_ℕ p.timeout_ms)
                                      else [])
                                    ++ ((if p.insecure_skip_verify
                                          then str ",\"insecure_skip_verify\":true"
                                          else [])
                                        ++ str "}")))))))))
