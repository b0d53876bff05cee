-- ===== src/Rtsp/Client/Text.antt =====
-- sdk/rtsp.go, BuildRTSPRequest: the lines of a request.
use serviceradar_sdk_go.Base.{
  ℕ, ◌||◌, List, [], ◌∷◌, ◌++◌, ◌≡◌, refl, Option, inl, inr, if◌then◌else◌, null, append_assoc,
  Bool-cases,
}
use serviceradar_sdk_go.Strings.{Bytes, str, itoa, blank}
use serviceradar_sdk_go.Maps.{Dict}
use serviceradar_sdk_go.Rtsp.Auth.{RtspAuthState, build_rtsp_authorization}
use serviceradar_sdk_go.Rtsp.Response.{crlf}
use serviceradar_sdk_go.Rtsp.Client.{
  RtspClient, header_line, optional_line, extra_lines, build_rtsp_request, next_request,
}

-- Lines, each with its end, and the empty line behind them
abbrev pub joined : List Bytes → Bytes
joined [] = crlf
joined (l ∷ ls) = l ++ (crlf ++ joined ls)

abbrev named : Bytes → Bytes → Bytes
named key value = key ++ (str ": " ++ value)

abbrev if_given : Bytes → Bytes → List Bytes
if_given key value = if null value then [] else named key value ∷ []

-- The further headers whose name and value are not blank
abbrev further : Dict Bytes → List Bytes
further [] = []
further ((key, value) ∷ rest) =
    if blank key || blank value then further rest else named key value ∷ further rest

-- The lines of a request: its number, the agent, the session and the authorization where there is
-- one, and the further headers.
abbrev pub request_lines : Bytes → Bytes → ℕ → Bytes → Bytes → Dict Bytes → List Bytes
request_lines method uri number session authorization extra =
    (method ++ (str " " ++ (uri ++ str " RTSP/1.0")))
    ∷ named (str "CSeq") (itoa number)
    ∷ named (str "User-Agent") (str "ServiceRadar-Camera-WASM/0.1")
    ∷ (if_given (str "Session") session
        ++ (if_given (str "Authorization") authorization ++ further extra))

header_lem :
    (key value rest : Bytes) → header_line key value ++ rest ≡ named key value ++ (crlf ++ rest)
header_lem key value rest = simp append_assoc

optional_lem :
    (key value : Bytes) (ls : List Bytes)
    → optional_line key value ++ joined ls ≡ joined (if_given key value ++ ls)
optional_lem key [] ls = refl
optional_lem key (c ∷ value) ls = header_lem key (c ∷ value) (joined ls)

extra_lem : (extra : Dict Bytes) → extra_lines extra ++ crlf ≡ joined (further extra)
extra_lem [] = refl
extra_lem ((key, value) ∷ rest) = elim (Bool-cases (blank key || blank value)) [
  | inl b ↦ rw b (extra_lem rest)
  | inr b ↦
      rw (b, append_assoc (header_line key value) (extra_lines rest) crlf, extra_lem rest)
        (header_lem key value (joined (further rest)))
]

module _ (md5_hex base64 : Bytes → Bytes) where
  -- The bytes of the request that a client sends next, with the authorization of a challenge
  abbrev pub request_text :
      RtspClient → Bytes → Bytes → Dict Bytes → ℕ → Option RtspAuthState → Bytes
  request_text c method uri extra number auth = joined (
      request_lines method uri number c.session
        (build_rtsp_authorization md5_hex base64 c.endpoint method uri auth).0 extra)

  pub next_request-text :
      (c : RtspClient) (method uri : Bytes) (extra : Dict Bytes)
      → (next_request md5_hex base64 c method uri extra).0
        ≡ request_text c method uri extra c.seq c.auth
  unfolding next_request build_rtsp_request
  next_request-text c method uri extra =
      let header = (build_rtsp_authorization md5_hex base64 c.endpoint method uri c.auth).0 in
      rw
        (
          extra_lem extra,
          optional_lem (str "Authorization") header (further extra),
          optional_lem (str "Session") c.session
              (if_given (str "Authorization") header ++ further extra),
        )
        (simp append_assoc)
