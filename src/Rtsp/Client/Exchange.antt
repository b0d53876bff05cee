-- ===== src/Rtsp/Client/Exchange.antt =====
-- sdk/rtsp.go: what RTSPClient.DoRequest sends.
use serviceradar_sdk_go.Base.{
  ◌+◌, false, List, [], ◌∷◌, ◌++◌, ◌≡◌, inl, inr, refl, ap, ◌∙◌, some, null, length, leb,
  append_assoc, arith, Bool-cases, Option-cases, Result, ok, err, ◌&&◌, not, true, none,
  if◌then◌else◌, Option,
}
use mathlib.Core.Path.{subst}
use serviceradar_sdk_go.Strings.{Bytes, str, pos, eqℤ, to_ℕ}
use serviceradar_sdk_go.Maps.{Dict, get}
use serviceradar_sdk_go.Rtsp.Error.{RtspError, unauthorized}
use serviceradar_sdk_go.Rtsp.Auth.{
  RtspAuthState, build_rtsp_authorization, parse_rtsp_authenticate_header,
}
use serviceradar_sdk_go.Rtsp.Response.{RtspResponse}
use serviceradar_sdk_go.Rtsp.Client.{
  RtspTransport, RtspClient, ClientError, rtsp, next_request, build_rtsp_request, round_trip,
  do_request, sent, final_reply, answer, retry, needs_auth,
}
use serviceradar_sdk_go.Rtsp.Client.Text.{request_text, next_request-text}

-- A transport that remembers what has been written to it.
abbrev pub recorded : {E S : Type 0} → RtspTransport E S → RtspTransport E (S × List Bytes)
recorded conn = record {
  write_bytes = λ request s.
      let (failure, t) = conn.write_bytes request s.0 in (failure, (t, s.1 ++ (request ∷ [])));
  read_bytes = λ size s. let (buf, t) = conn.read_bytes size s.0 in (buf, (t, s.1));
}

module _ (md5_hex base64 : Bytes → Bytes) {E S : Type 0} (conn : RtspTransport E S) where
  round_trip-recorded :
      (request : Bytes) (s : S) (log : List Bytes)
      → (round_trip (recorded conn) request (s, log)).1.1 ≡ log ++ (request ∷ [])
  unfolding round_trip
  round_trip-recorded request s log = elim (Option-cases (conn.write_bytes request s).0) [
    | inl e ↦ rw e refl
    | inr (x, e) ↦ rw e refl
  ]

  module _ (c : RtspClient) (method uri : Bytes) (extra : Dict Bytes) (log : List Bytes) where
    -- The state that the challenge of a response gives: that of a 401 for an endpoint with a user
    -- name, where its header can be read.
    abbrev pub challenge : Result (ClientError E) RtspResponse → Option RtspAuthState
    challenge (err x) = none
    challenge (ok r) =
        if eqℤ r.status_code (pos 401) && not (null c.endpoint.username)
        then read_challenge
            (parse_rtsp_authenticate_header (get (str "www-authenticate") r.headers))
        else none
      where
        read_challenge : Result RtspError RtspAuthState → Option RtspAuthState
        read_challenge (err x) = none
        read_challenge (ok auth) = some auth

    -- The requests that are sent, with the client's number and state, and behind a challenge with the
    -- next number and the state of the challenge.
    abbrev pub requests : Option RtspAuthState → List Bytes
    requests none = request_text md5_hex base64 c method uri extra c.seq c.auth ∷ []
    requests (some auth) =
        request_text md5_hex base64 c method uri extra c.seq c.auth
        ∷ request_text md5_hex base64 c method uri extra (c.seq + 1) (some auth)
        ∷ []

    -- The state of the challenge as the last request leaves it
    abbrev pub last_state : Option RtspAuthState → Option RtspAuthState
    last_state none = (build_rtsp_authorization md5_hex base64 c.endpoint method uri c.auth).1
    last_state (some auth) =
        (build_rtsp_authorization md5_hex base64 c.endpoint method uri (some auth)).1

    -- What a call does after the reply to its first request: the requests are written behind the
    -- earlier ones, the client counts on by as many, and a response that is given back has a status
    -- below 400.
    pub record IsExchange (reply : Result (ClientError E) RtspResponse)
        (result : Result (ClientError E) RtspResponse × (RtspClient × (S × List Bytes)))
        : Type 0 where
      pub written : result.1.1.1 ≡ log ++ requests (challenge reply)
      pub left : result.1.0 ≡ record c {
        seq = c.seq + length (requests (challenge reply));
        auth = last_state (challenge reply);
      }
      pub below :
          (response : RtspResponse)
          → result.0 ≡ ok response
          → leb 400 (to_ℕ response.status_code) ≡ false

    abbrev failure : ClientError E → Result (ClientError E) RtspResponse
    failure x = err x

    abbrev success : RtspResponse → Result (ClientError E) RtspResponse
    success r = ok r

    abbrev first : Bytes
    first = (next_request md5_hex base64 c method uri extra).0

    abbrev counted_client : RtspClient
    counted_client = sent md5_hex base64 c method uri extra

    final_reply-below :
        (reply : Result (ClientError E) RtspResponse) (response : RtspResponse)
        → final_reply (recorded conn) reply ≡ ok response
        → leb 400 (to_ℕ response.status_code) ≡ false
    final_reply-below (err x) response e = absurd cc
    final_reply-below (ok r) response e = elim (Bool-cases (leb 400 (to_ℕ r.status_code))) [
      | inl b ↦ absurd (clash (rw b at e))
      | inr b ↦ subst (λ x. leb 400 (to_ℕ x.status_code) ≡ false) (same (rw b at e)) b
    ]
      where
        clash : {x : ClientError E} → failure x ≡ success response → ⊥
        clash e = cc

        same : success r ≡ success response → r ≡ response
        same e = ap (λ x. elim x [ ok y ↦ y | err z ↦ r ]) e

    abbrev second : RtspAuthState → Bytes
    second auth =
        (next_request md5_hex base64 (record counted_client { auth = some auth }) method uri
          extra).0

    requests-first : first ∷ [] ≡ requests none
    requests-first = ap (λ x. x ∷ []) (next_request-text md5_hex base64 c method uri extra)

    requests-second : (auth : RtspAuthState) → first ∷ second auth ∷ [] ≡ requests (some auth)
    requests-second auth =
        rw
          (
            next_request-text md5_hex base64 c method uri extra,
            next_request-text md5_hex base64 (record counted_client { auth = some auth }) method uri
                extra,
          )
          refl

    once_lem :
        (reply given : Result (ClientError E) RtspResponse) (s : S × List Bytes)
        → challenge reply ≡ none
        → s.1 ≡ log ++ (first ∷ [])
        → ((response : RtspResponse)
            → given ≡ ok response
            → leb 400 (to_ℕ response.status_code) ≡ false)
        → IsExchange reply (given, (counted_client, s))
    unfolding next_request build_rtsp_request
    once_lem reply given s n e b = record {
      written = rw n (e ∙ ap (λ x. log ++ x) requests-first);
      left = rw n refl;
      below = b;
    }

    twice_lem :
        (reply : Result (ClientError E) RtspResponse) (auth : RtspAuthState) (s : S)
        (log1 : List Bytes)
        → challenge reply ≡ some auth
        → log1 ≡ log ++ (first ∷ [])
        → IsExchange reply (
            retry md5_hex base64
              (recorded conn)
              method
              uri
              extra
              counted_client
              (ok auth, (s, log1)))
    unfolding next_request build_rtsp_request
    twice_lem reply auth s log1 n e = record {
      written = rw n (
          round_trip-recorded (second auth) s log1
          ∙ ap (λ x. x ++ (second auth ∷ [])) e
          ∙ append_assoc log (first ∷ []) (second auth ∷ [])
          ∙ ap (λ x. log ++ x) (requests-second auth));
      left =
          let number : c.seq + 1 + 1 ≡ c.seq + 2 = omega arith in
          rw n (ap (λ k. record c { seq = k; auth = last_state (some auth) }) number);
      below = final_reply-below (round_trip (recorded conn) (second auth) (s, log1)).0;
    }

    challenged_lem :
        (response : RtspResponse) (parsed : Result RtspError RtspAuthState) (s : S × List Bytes)
        → parse_rtsp_authenticate_header (get (str "www-authenticate") response.headers) ≡ parsed
        → needs_auth c response ≡ true
        → s.1 ≡ log ++ (first ∷ [])
        → IsExchange
            (ok response)
            (retry md5_hex base64 (recorded conn) method uri extra counted_client (parsed, s))
    challenged_lem response (err x) s p n e =
        once_lem (ok response) (err (rtsp unauthorized)) s (rw (n, p) refl) e (λ r q. absurd cc)
    challenged_lem response (ok auth) (s, log1) p n e =
        twice_lem (ok response) auth s log1 (rw (n, p) refl) e

    answer_lem :
        (reply : Result (ClientError E) RtspResponse) (s : S × List Bytes)
        → s.1 ≡ log ++ (first ∷ [])
        → IsExchange reply
            (answer md5_hex base64 (recorded conn) method uri extra counted_client (reply, s))
    answer_lem (err x) s e = once_lem (err x) (err x) s refl e (λ r p. absurd cc)
    answer_lem (ok response) s e = elim (Bool-cases (needs_auth c response)) [
      | inl n ↦ rw n (challenged_lem response _ s refl n e)
      | inr n ↦ rw n (
          once_lem (ok response) (final_reply (recorded conn) (ok response)) s (rw n refl) e
            (final_reply-below (ok response)))
    ]

    -- One call of DoRequest, whatever the transport does. It sends a request with the lines of the
    -- method, the client's number and session, and the authorization of the client's challenge. Where
    -- the reply to that is a 401 whose challenge can be read, and the endpoint has a user name, it
    -- sends a second one, with the next number and the authorization of the new challenge. It sends
    -- nothing else, the client counts on by as many, keeps the state of the last authorization and
    -- changes in nothing else, and a response that is returned has a status below 400.
    pub do_request-IsExchange :
        (s : S)
        → IsExchange
            (round_trip
              (recorded conn)
              (request_text md5_hex base64 c method uri extra c.seq c.auth)
              (s, log)).0
            (do_request md5_hex base64 (recorded conn) c method uri extra (s, log))
    unfolding do_request
    do_request-IsExchange s = rw (← next_request-text md5_hex base64 c method uri extra) (
        let (reply, after) = round_trip (recorded conn) first (s, log) in
        answer_lem reply after (round_trip-recorded first s log))
