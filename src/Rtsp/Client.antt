-- ===== src/Rtsp/Client.antt =====
-- sdk/rtsp.go: BuildRTSPRequest and RTSPClient, on a transport with a state of its own. The number
-- of requests of a client is taken to stay below the bound of an int.
pub mod Text
pub mod Exchange
use serviceradar_sdk_go.Base.{
  ℕ, ◌+◌, ◌*◌, Bool, true, false, not, ◌&&◌, ◌||◌, List, [], ◌∷◌, ◌++◌, Option, none, some,
  if◌then◌else◌, null, leb, Result, ok, err,
}
use serviceradar_sdk_go.Strings.{Bytes, str, ℤ, pos, eqℤ, to_ℕ, itoa, blank}
use serviceradar_sdk_go.Maps.{Dict, get}
use serviceradar_sdk_go.Rtsp.Error.{RtspError, unauthorized, bad_response}
use serviceradar_sdk_go.Rtsp.Auth.{
  RtspEndpoint, RtspAuthState, build_rtsp_authorization, parse_rtsp_authenticate_header,
}
use serviceradar_sdk_go.Rtsp.Response.{RtspResponse, crlf, parse_rtsp_response}

-- RTSPTransport: a write gives its error, a read the bytes that one call reads.
pub record RtspTransport (E S : Type 0) : Type 0 where
  pub write_bytes : Bytes → S → Option E × S
  pub read_bytes : ℕ → S → Result E Bytes × S

-- RTSPClient apart from its connection and its timeout
pub record RtspClient : Type 0 where
  pub endpoint : RtspEndpoint
  pub seq : ℕ
  pub session : Bytes
  pub auth : Option RtspAuthState

-- NewRTSPClient
abbrev pub new_rtsp_client : RtspEndpoint → RtspClient
new_rtsp_client endpoint = record { endpoint = endpoint; seq = 1; session = []; auth = none }

-- `rejected` is ErrRTSPBadResponse with the status line of a response from 400 on.
pub data ClientError (E : Type 0) : Type 0 where
  transport : E → ClientError E
  rtsp : RtspError → ClientError E
  rejected : Bytes → ClientError E

abbrev pub header_line : Bytes → Bytes → Bytes
header_line key value = key ++ (str ": " ++ (value ++ crlf))

abbrev pub extra_lines : Dict Bytes → Bytes
extra_lines [] = []
extra_lines ((key, value) ∷ rest) =
    if blank key || blank value then extra_lines rest else header_line key value ++ extra_lines rest

abbrev pub optional_line : Bytes → Bytes → Bytes
optional_line key value = if null value then [] else header_line key value

abbrev needs_auth : RtspClient → RtspResponse → Bool
needs_auth c response = eqℤ response.status_code (pos 401) && not (null c.endpoint.username)

module _ {E S : Type 0} (conn : RtspTransport E S) where
  abbrev Reply : Type 0
  Reply = Result (ClientError E) RtspResponse

  abbrev parsed : Result RtspError RtspResponse → Reply
  parsed (err e) = err (rtsp e)
  parsed (ok response) = ok response

  -- ReadRTSPResponse
  abbrev response_of : Result E Bytes → Reply
  response_of (err e) = err (transport e)
  response_of (ok buf) = parsed (parse_rtsp_response buf)

  abbrev read_after : Option E × S → Reply × S
  read_after (some e, s) = (err (transport e), s)
  read_after (none, s) = let (buf, t) = conn.read_bytes (64 * 1024) s in (response_of buf, t)

  -- A request is written and its response read.
  unfoldable pub round_trip : Bytes → S → Reply × S
  round_trip request s = read_after (conn.write_bytes request s)

  -- The response that the exchange ends with.
  abbrev final_reply : Reply → Reply
  final_reply (err e) = err e
  final_reply (ok response) =
      if leb 400 (to_ℕ response.status_code)
      then err (rejected response.status_line)
      else ok response

module _ (md5_hex base64 : Bytes → Bytes) where
  -- The state of the challenge is returned as BuildRTSPAuthorization leaves it.
  unfoldable pub build_rtsp_request :
      RtspEndpoint
      → Bytes
      → Bytes
      → ℕ
      → Bytes
      → Option RtspAuthState
      → Dict Bytes
      → Bytes × Option RtspAuthState
  build_rtsp_request endpoint method uri cseq session auth extra =
      let (header, after) = build_rtsp_authorization md5_hex base64 endpoint method uri auth in
      (
        method
            ++ (str " "
                ++ (uri
                    ++ (str " RTSP/1.0"
                        ++ (crlf
                            ++ (header_line (str "CSeq") (itoa cseq)
                                ++ (header_line (str "User-Agent")
                                      (str "ServiceRadar-Camera-WASM/0.1")
                                    ++ (optional_line (str "Session") session
                                        ++ (optional_line (str "Authorization") header
                                            ++ (extra_lines extra ++ crlf))))))))),
        after,
      )

  -- The request that a client sends next.
  unfoldable pub next_request :
      RtspClient → Bytes → Bytes → Dict Bytes → Bytes × Option RtspAuthState
  unfolding build_rtsp_request
  next_request c method uri extra =
      build_rtsp_request c.endpoint method uri c.seq c.session c.auth extra

  abbrev sent : RtspClient → Bytes → Bytes → Dict Bytes → RtspClient
  sent c method uri extra = record c { seq = c.seq + 1; auth = (next_request c method uri extra).1 }

  module _ {E S : Type 0} (conn : RtspTransport E S) where
    abbrev retry :
        Bytes
        → Bytes
        → Dict Bytes
        → RtspClient
        → Result RtspError RtspAuthState × S
        → Reply conn × (RtspClient × S)
    retry method uri extra c (err e, s) = (err (rtsp unauthorized), (c, s))
    retry method uri extra c (ok auth, s) =
        let challenged : RtspClient = record c { auth = some auth } in
        let (reply, t) = round_trip conn (next_request challenged method uri extra).0 s in
        (final_reply conn reply, (sent challenged method uri extra, t))

    abbrev answer :
        Bytes → Bytes → Dict Bytes → RtspClient → Reply conn × S → Reply conn × (RtspClient × S)
    answer method uri extra c (err e, s) = (err e, (c, s))
    answer method uri extra c (ok response, s) =
        if needs_auth c response
        then retry method uri extra c
            (parse_rtsp_authenticate_header (get (str "www-authenticate") response.headers), s)
        else (final_reply conn (ok response), (c, s))

    unfoldable pub do_request :
        RtspClient → Bytes → Bytes → Dict Bytes → S → Reply conn × (RtspClient × S)
    unfolding round_trip next_request
    do_request c method uri extra s =
        answer method uri extra (sent c method uri extra)
          (round_trip conn (next_request c method uri extra).0 s)

    abbrev error_of : Reply conn × (RtspClient × S) → Option (ClientError E) × (RtspClient × S)
    error_of (err e, after) = (some e, after)
    error_of (ok response, after) = (none, after)

    unfoldable pub teardown : RtspClient → S → Option (ClientError E) × (RtspClient × S)
    unfolding do_request
    teardown c s =
        if null c.session
        then (none, (c, s))
        else error_of (do_request c (str "TEARDOWN") c.endpoint.request_uri [] s)
