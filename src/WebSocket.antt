-- ===== src/WebSocket.antt =====
-- sdk/websocket.go: WebSocket connections of a plugin. The host is an interface over a state,
-- json.Marshal is a parameter; a nil connection is `none`, and a duration is in nanoseconds.
use serviceradar_sdk_go.Base.{
  ℕ, Bool, true, false, not, ◌&&◌, ◌||◌, [], ◌∷◌, ◌≡◌, refl, Option, none, some, ◌==◌, all,
  if◌then◌else◌, null, arith, Result, ok, err,
}
use serviceradar_sdk_go.Strings.{Bytes, str, ℤ, is_neg, to_ℕ, trim_space}
use serviceradar_sdk_go.Maps.{Dict, insert}
use serviceradar_sdk_go.Host.{HostError, HostResult, fine, host_err}
use serviceradar_sdk_go.Sockets.{milliseconds}

pub record WebSocketDialRequest : Type 0 where
  pub url : Bytes
  pub headers : Dict Bytes
  pub insecure_skip_verify : Bool

pub record WebSocketConn : Type 0 where
  pub handle : ℕ

-- The host calls. A receive gives its result and what it has put into the buffer.
pub record WebSocketHost (S : Type 0) : Type 0 where
  pub websocket_connect : Bytes → ℕ → S → ℤ × S
  pub websocket_send : ℕ → Bytes → ℕ → S → ℤ × S
  pub websocket_recv : ℕ → ℕ → ℕ → S → (ℤ × Bytes) × S
  pub websocket_close : ℕ → S → ℤ × S

pub data WebSocketError : Type 0 where
  cancelled not_initialized not_encoded : WebSocketError
  host : HostError → WebSocketError

abbrev host_error : ℤ → Bytes → WebSocketError
host_error code op = host (record { code = code; op = op })

abbrev is_empty_header : Bytes × Bytes → Bool
is_empty_header (key, value) = null (trim_space key) || null (trim_space value)

-- The loop over the headers: entries with an empty name or value are skipped.
unfoldable pub trimmed_headers : Dict Bytes → Dict Bytes → Dict Bytes
trimmed_headers [] taken = taken
trimmed_headers ((key, value) ∷ headers) taken = trimmed_headers headers (
    if is_empty_header (key, value)
    then taken
    else insert (trim_space key) (trim_space value) taken)

module _ (marshal : WebSocketDialRequest → Option Bytes) where
  abbrev encoded_payload : WebSocketDialRequest → Option Bytes
  encoded_payload payload =
      if null payload.headers && not payload.insecure_skip_verify
      then some payload.url
      else marshal payload

  unfoldable pub encode_websocket_dial_request : WebSocketDialRequest → Option Bytes
  encode_websocket_dial_request req =
      if null req.headers && not req.insecure_skip_verify
      then some (trim_space req.url)
      else encoded_payload (record {
        url = trim_space req.url;
        headers = trimmed_headers req.headers [];
        insecure_skip_verify = req.insecure_skip_verify;
      })

  trimmed_headers-empty :
      (headers : Dict Bytes) → all is_empty_header headers ≡ true → trimmed_headers headers [] ≡ []
  unfolding trimmed_headers
  trimmed_headers-empty [] e = refl
  trimmed_headers-empty ((key, value) ∷ headers) e =
      ground (arith, e, trimmed_headers-empty headers)

  -- A dial whose headers are all empty once trimmed and that verifies its peer is the bare URL, as
  -- one without headers is.
  pub encode_websocket_dial_request-bare :
      (req : WebSocketDialRequest)
      → req.insecure_skip_verify ≡ false
      → all is_empty_header req.headers ≡ true
      → encode_websocket_dial_request req ≡ some (trim_space req.url)
  unfolding encode_websocket_dial_request
  encode_websocket_dial_request-bare req skip e =
      ground (arith, skip, trimmed_headers-empty req.headers e)

abbrev conn_handle : Option WebSocketConn → ℕ
conn_handle none = 0
conn_handle (some ws) = ws.handle

module _ {S : Type 0} (calls : WebSocketHost S)
    (marshal : WebSocketDialRequest → Option Bytes) where
  abbrev connected : ℤ × S → Result WebSocketError WebSocketConn × S
  connected (res, s) =
      if is_neg res
      then (err (host_error res (str "websocket_connect")), s)
      else (ok (record { handle = to_ℕ res }), s)

  -- WebSocketDialRequestContext
  unfoldable pub websocket_dial_request_context :
      Bool → WebSocketDialRequest → ℤ → S → Result WebSocketError WebSocketConn × S
  websocket_dial_request_context done req timeout s =
      if done then (err cancelled, s) else elim (encode_websocket_dial_request marshal req) [
        | none ↦ (err not_encoded, s)
        | some payload ↦ connected (calls.websocket_connect payload (milliseconds timeout) s)
      ]

module _ {S : Type 0} (calls : WebSocketHost S) where
  abbrev sent_answer : ℤ × S → Result WebSocketError (Unit {0}) × S
  sent_answer (res, s) =
      if is_neg res then (err (host_error res (str "websocket_send")), s) else (ok tt, s)

  abbrev received : (ℤ × Bytes) × S → Result WebSocketError (ℕ × Bytes) × S
  received ((res, buf), s) =
      if is_neg res
      then (err (host_error res (str "websocket_recv")), s)
      else (ok (to_ℕ res, buf), s)

  unfoldable pub send_context :
      Bool → Bytes → ℤ → Option WebSocketConn → S → Result WebSocketError (Unit {0}) × S
  send_context done payload timeout ws s =
      if done
      then (err cancelled, s)
      else if conn_handle ws == 0
      then (err not_initialized, s)
      else if null payload
      then (ok tt, s)
      else sent_answer (calls.websocket_send (conn_handle ws) payload (milliseconds timeout) s)

  -- RecvContext into a buffer of some size: the number of bytes, and what the buffer begins with
  unfoldable pub recv_context :
      Bool → ℕ → ℤ → Option WebSocketConn → S → Result WebSocketError (ℕ × Bytes) × S
  recv_context done size timeout ws s =
      if done
      then (err cancelled, s)
      else if conn_handle ws == 0
      then (err not_initialized, s)
      else if size == 0
      then (ok (0, []), s)
      else received (calls.websocket_recv (conn_handle ws) size (milliseconds timeout) s)

  -- Close; the connection is returned as the call leaves it.
  unfoldable pub close : Option WebSocketConn → S → HostResult × (Option WebSocketConn × S)
  close ws s =
      if conn_handle ws == 0
      then (fine, (ws, s))
      else (let (res, t) = calls.websocket_close (conn_handle ws) s in
          (host_err res (str "websocket_close"), (some (record { handle = 0 }), t)))
