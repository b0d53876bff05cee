-- ===== src/Rtsp/Auth.antt =====
-- sdk/rtsp.go: RTSP endpoints, and the Basic and Digest authorization of a request. url.Parse, MD5
-- and base64 are parameters. A pointer to the state of a challenge is an Option, which is returned
-- as the call leaves it.
use serviceradar_sdk_go.Base.{
  ℕ, zero, suc, ◌+◌, ◌-◌, ◌/◌, ◌%◌, ◌^◌, Bool, false, not, ◌&&◌, ◌||◌, List, [], ◌∷◌, ◌++◌, Option,
  none, some, ◌==◌, if◌then◌else◌, null, drop, ltb, Result, ok, err,
}
use serviceradar_sdk_go.Strings.{
  Bytes, str, ℤ, is_pos, to_ℕ, atoi, equal, equal_fold, has_prefix, cut, split, trim_space,
  trim_quotes, blank, to_lower, join,
}
use serviceradar_sdk_go.Maps.{Dict, insert, get}
use serviceradar_sdk_go.Rtsp.Error.{RtspError, unauthorized}

pub record RtspEndpoint : Type 0 where
  pub raw_url : Bytes
  pub scheme : Bytes
  pub host : Bytes
  pub port : ℕ
  pub request_uri : Bytes
  pub base_url : Bytes
  pub username : Bytes
  pub password : Bytes

pub record RtspAuthState : Type 0 where
  pub scheme : Bytes
  pub realm : Bytes
  pub nonce : Bytes
  pub opaque : Bytes
  pub algorithm : Bytes
  pub qop : Bytes
  pub cnonce : Bytes
  pub nc : ℕ

-- A *url.URL as the code asks it: Scheme, Host, Hostname(), Port(), User and RequestURI().
pub record ParsedUrl : Type 0 where
  pub scheme : Bytes
  pub host : Bytes
  pub hostname : Bytes
  pub port : Bytes
  pub user : Option (Bytes × Option Bytes)
  pub request_uri : Bytes

-- `nil_dereference` is the panic on the nil result of a failed url.Parse.
pub data EndpointResult : Type 0 where
  nil_dereference invalid : EndpointResult
  endpoint : RtspEndpoint → EndpointResult

abbrev port_number : Bytes → Option ℤ → Option ℕ
port_number scheme none = none
port_number scheme (some value) =
    if not (is_pos value) || ltb 65535 (to_ℕ value) then none else some (to_ℕ value)

-- The port in the URL, or that of the scheme.
abbrev endpoint_port : Bytes → Bytes → Option ℕ
endpoint_port scheme port =
    if null port
    then some (if equal scheme (str "rtsps") then 322 else 554)
    else port_number scheme (atoi port)

abbrev credentials_of : Option (Bytes × Option Bytes) → Bytes → Bytes → Bytes × Bytes
credentials_of none username password = (username, password)
credentials_of (some (name, none)) username password = (name, password)
credentials_of (some (name, some secret)) username password = (name, secret)

abbrev endpoint_at : Bytes → Bytes → ParsedUrl → Bytes × Bytes → Option ℕ → EndpointResult
endpoint_at raw scheme parsed (username, password) none = invalid
endpoint_at raw scheme parsed (username, password) (some port) = endpoint (record {
  raw_url = raw;
  scheme = scheme;
  host = parsed.hostname;
  port = port;
  request_uri = if null parsed.request_uri then str "/" else parsed.request_uri;
  base_url = scheme ++ (str "://" ++ parsed.host);
  username = username;
  password = password;
})

abbrev endpoint_of : Bytes → Bytes → Bytes → Option ParsedUrl → EndpointResult
endpoint_of raw username password none = nil_dereference
endpoint_of raw username password (some parsed) =
    let scheme = to_lower parsed.scheme in
    if null parsed.host || (not (equal scheme (str "rtsp")) && not (equal scheme (str "rtsps")))
    then invalid
    else if null parsed.hostname
    then invalid
    else endpoint_at raw scheme parsed (credentials_of parsed.user username password)
        (endpoint_port scheme parsed.port)

unfoldable pub parse_rtsp_endpoint :
    (Bytes → Option ParsedUrl) → Bytes → Bytes → Bytes → EndpointResult
parse_rtsp_endpoint parse_url raw username password =
    endpoint_of raw username password (parse_url (trim_space raw))

hex_digit : ℕ → ℕ
hex_digit n = if ltb n 10 then b'0' + n else b'a' + (n - 10)

-- The lowest digits of a number, as many as the fuel; %08x of a uint32 has 8 of them.
unfoldable hex_digits : ℕ → ℕ → Bytes → Bytes
unfolding hex_digit
hex_digits zero n acc = acc
hex_digits (suc f) n acc = hex_digits f (n / 16) (hex_digit (n % 16) ∷ acc)

-- A parameter of a header: its name, its value, and a quote on each side of it.
abbrev quoted : Bytes → Bytes → Bytes
quoted name value = name ++ (str "=\"" ++ (value ++ str "\""))

abbrev plain : Bytes → Bytes → Bytes
plain name value = name ++ (str "=" ++ value)

abbrev given : Bytes → List Bytes → List Bytes
given value parts = if null value then [] else parts

module _ (md5_hex base64 : Bytes → Bytes) where
  -- The response to a challenge.
  unfoldable pub digest_response :
      RtspEndpoint → Bytes → Bytes → RtspAuthState → Bytes → Bytes → Bytes
  digest_response e method uri auth nc cnonce =
      let ha1 = md5_hex (e.username ++ (str ":" ++ (auth.realm ++ (str ":" ++ e.password)))) in
      let ha2 = md5_hex (method ++ (str ":" ++ uri)) in
      if null auth.qop
      then md5_hex (ha1 ++ (str ":" ++ (auth.nonce ++ (str ":" ++ ha2))))
      else md5_hex (
          ha1
          ++ (str ":"
              ++ (auth.nonce
                  ++ (str ":"
                      ++ (nc
                          ++ (str ":"
                              ++ (cnonce ++ (str ":" ++ (auth.qop ++ (str ":" ++ ha2))))))))))

  unfoldable pub digest_header : RtspEndpoint → Bytes → Bytes → RtspAuthState → Bytes
  unfolding hex_digits
  digest_header e method uri auth =
      let nc = hex_digits 8 auth.nc [] in
      let cnonce = if null auth.cnonce then str "serviceradar" else auth.cnonce in
      str "Digest "
      ++ join
          ((quoted (str "username") e.username
              ∷ quoted (str "realm") auth.realm
              ∷ quoted (str "nonce") auth.nonce
              ∷ quoted (str "uri") uri
              ∷ quoted (str "response") (digest_response e method uri auth nc cnonce)
              ∷ [])
            ++ (given auth.algorithm (plain (str "algorithm") auth.algorithm ∷ [])
                ++ (given auth.opaque (quoted (str "opaque") auth.opaque ∷ [])
                    ++ given auth.qop (
                        plain (str "qop") auth.qop
                        ∷ plain (str "nc") nc
                        ∷ quoted (str "cnonce") cnonce
                        ∷ []))))
          (str ", ")

  abbrev counted : RtspAuthState → RtspAuthState
  counted auth = record auth { nc = (auth.nc + 1) % 2 ^ 32 }

  abbrev basic_header : RtspEndpoint → Bytes
  basic_header e = str "Basic " ++ base64 (e.username ++ (str ":" ++ e.password))

  abbrev authorize :
      RtspEndpoint → Bytes → Bytes → Option RtspAuthState → Bytes × Option RtspAuthState
  authorize e method uri none = (basic_header e, none)
  authorize e method uri (some auth) =
      if equal_fold auth.scheme (str "digest")
      then (digest_header e method uri (counted auth), some (counted auth))
      else (basic_header e, some auth)

  unfoldable pub build_rtsp_authorization :
      RtspEndpoint → Bytes → Bytes → Option RtspAuthState → Bytes × Option RtspAuthState
  build_rtsp_authorization e method uri auth =
      if blank e.username && blank e.password then ([], auth) else authorize e method uri auth

-- splitCommaSeparated: the rest of the text, whether it stands in quotes, and the part so far
unfoldable pub split_commas : Bytes → Bool → Bytes → List Bytes
split_commas [] quotes current = if null current then [] else trim_space current ∷ []
split_commas (c ∷ raw) quotes current =
    let next = trim_space current ∷ split_commas raw quotes [] in
    let toggled = split_commas raw (not quotes) (current ++ (c ∷ [])) in
    let longer = split_commas raw quotes (current ++ (c ∷ [])) in
    if c == b'"' then toggled else if c == b',' && not quotes then next else longer

unfoldable pub auth_params_from : List Bytes → Dict Bytes → Dict Bytes
auth_params_from [] params = params
auth_params_from (part ∷ parts) params =
    let (key, value, found) = cut part (str "=") in
    auth_params_from parts (
      if found
      then insert (to_lower (trim_space key)) (trim_quotes (trim_space value)) params
      else params)

unfoldable pub parse_auth_params : Bytes → Dict Bytes
unfolding split_commas auth_params_from
parse_auth_params raw = auth_params_from (split_commas raw false []) []

-- The loop over the candidates: "auth" where it is one of them, else the first that is not empty
unfoldable pub choose_qop : List Bytes → Bytes → Bytes
choose_qop [] qop = qop
choose_qop (candidate ∷ candidates) qop =
    let candidate = trim_quotes (trim_space candidate) in
    let rest =
      choose_qop candidates (if null qop && not (null candidate) then candidate else qop) in
    if equal candidate (str "auth") then str "auth" else rest

unfoldable pub first_non_blank : List Bytes → Bytes
first_non_blank [] = []
first_non_blank (value ∷ values) =
    let value = trim_space value in
    let rest = first_non_blank values in if null value then rest else value

abbrev digest_challenge : Dict Bytes → Result RtspError RtspAuthState
digest_challenge params =
    let qop = get (str "qop") params in
    if null (get (str "realm") params) || null (get (str "nonce") params)
    then err unauthorized
    else ok (record {
      scheme = str "digest";
      realm = get (str "realm") params;
      nonce = get (str "nonce") params;
      opaque = get (str "opaque") params;
      algorithm = first_non_blank (get (str "algorithm") params ∷ str "MD5" ∷ []);
      qop = if null qop then [] else choose_qop (split qop (str ",")) [];
      cnonce = str "serviceradar";
      nc = 0;
    })

abbrev basic_challenge : RtspAuthState
basic_challenge = record {
  scheme = str "basic";
  realm = [];
  nonce = [];
  opaque = [];
  algorithm = [];
  qop = [];
  cnonce = [];
  nc = 0;
}

unfoldable pub parse_rtsp_authenticate_header : Bytes → Result RtspError RtspAuthState
unfolding choose_qop first_non_blank
parse_rtsp_authenticate_header raw =
    let header = trim_space raw in
    if null header
    then err unauthorized
    else if has_prefix (to_lower header) (str "digest ")
    then digest_challenge (parse_auth_params (trim_space (drop 7 header)))
    else if has_prefix (to_lower header) (str "basic")
    then ok basic_challenge
    else err unauthorized
