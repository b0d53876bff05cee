-- ===== src/Sockets.antt =====
-- sdk/tcp.go and sdk/udp.go: the connections that the host makes for a plugin. The host is an
-- interface over a state. A nil connection is `none`, and a duration is a number of nanoseconds.
pub mod Closing
use serviceradar_sdk_go.Base.{
  ℕ, ◌+◌, ◌-◌, ◌/◌, ◌%◌, ◌^◌, ◌<◌, Bool, false, [], ◌≡◌, Option, none, some, ◌==◌, if◌then◌else◌,
  null, arith, Result, ok, err,
}
use serviceradar_sdk_go.Strings.{Bytes, str, ℤ, pos, negsuc, is_neg, is_pos, to_ℕ}
use serviceradar_sdk_go.Host.{HostError, HostResult, fine, failed, host_err}

pub record TcpConn : Type 0 where
  pub handle : ℕ

-- The host calls. A read gives its result and what it has put into the buffer.
pub record SocketHost (S : Type 0) : Type 0 where
  pub tcp_connect : Bytes → ℕ → ℕ → S → ℤ × S
  pub tcp_read : ℕ → ℕ → ℕ → S → (ℤ × Bytes) × S
  pub tcp_write : ℕ → Bytes → ℕ → S → ℤ × S
  pub tcp_close : ℕ → S → ℤ × S
  pub udp_sendto : Bytes → ℕ → Bytes → ℕ → S → ℤ × S

pub data SocketError : Type 0 where
  cancelled not_initialized deadline_exceeded : SocketError
  host : HostError → SocketError

-- `uint32(timeout.Milliseconds())`, which rounds towards 0 and wraps
abbrev pub milliseconds : ℤ → ℕ
milliseconds (pos n) = n / 1000000 % 2 ^ 32
milliseconds (negsuc n) = (2 ^ 32 - (n + 1) / 1000000 % 2 ^ 32) % 2 ^ 32

abbrev pub conn_handle : Option TcpConn → ℕ
conn_handle none = 0
conn_handle (some c) = c.handle

abbrev host_error : ℤ → Bytes → SocketError
host_error code op = host (record { code = code; op = op })

module _ {S : Type 0} (calls : SocketHost S) where
  abbrev connected : ℤ × S → Result SocketError TcpConn × S
  connected (res, s) =
      if is_neg res
      then (err (host_error res (str "tcp_connect")), s)
      else (ok (record { handle = to_ℕ res }), s)

  -- TCPDialContext
  unfoldable pub tcp_dial_context : Bool → Bytes → ℕ → ℤ → S → Result SocketError TcpConn × S
  tcp_dial_context done addr port timeout s =
      if done
      then (err cancelled, s)
      else connected (calls.tcp_connect addr port (milliseconds timeout) s)

  abbrev counted : Bytes → ℤ × S → Result SocketError ℕ × S
  counted op (res, s) = if is_neg res then (err (host_error res op), s) else (ok (to_ℕ res), s)

  abbrev filled : (ℤ × Bytes) × S → Result SocketError (ℕ × Bytes) × S
  filled ((res, buf), s) =
      if is_neg res then (err (host_error res (str "tcp_read")), s) else (ok (to_ℕ res, buf), s)

  -- ReadContext into a buffer of some size: the number of bytes, and what the buffer begins with
  unfoldable pub read_context :
      Bool → ℕ → ℤ → Option TcpConn → S → Result SocketError (ℕ × Bytes) × S
  read_context done size timeout c s =
      if done
      then (err cancelled, s)
      else if conn_handle c == 0
      then (err not_initialized, s)
      else if size == 0
      then (ok (0, []), s)
      else filled (calls.tcp_read (conn_handle c) size (milliseconds timeout) s)

  unfoldable pub write_context : Bool → Bytes → ℤ → Option TcpConn → S → Result SocketError ℕ × S
  write_context done payload timeout c s =
      if done
      then (err cancelled, s)
      else if conn_handle c == 0
      then (err not_initialized, s)
      else if null payload
      then (ok 0, s)
      else counted (str "tcp_write")
          (calls.tcp_write (conn_handle c) payload (milliseconds timeout) s)

  -- Close; the connection is returned as the call leaves it, closed whatever the host answers.
  unfoldable pub close : Option TcpConn → S → HostResult × (Option TcpConn × S)
  close c s =
      if conn_handle c == 0
      then (fine, (c, s))
      else (let (res, t) = calls.tcp_close (conn_handle c) s in
          (host_err res (str "tcp_close"), (some (record { handle = 0 }), t)))

  -- UDPSendToContext
  unfoldable pub udp_send_to_context :
      Bool → Bytes → ℕ → Bytes → ℤ → S → Result SocketError (Unit {0}) × S
  udp_send_to_context done addr port payload timeout s =
      if done
      then (err cancelled, s)
      else sent_to (calls.udp_sendto addr port payload (milliseconds timeout) s)
    where
      sent_to : ℤ × S → Result SocketError (Unit {0}) × S
      sent_to (res, t) = elim (host_err res (str "udp_sendto")) [
        | failed e ↦ (err (host e), t)
        | fine ↦ (ok tt, t)
      ]

-- timeoutUntil: a zero deadline is `none`, and the time that is left is given.
abbrev pub timeout_until : Option ℤ → Result SocketError ℤ
timeout_until none = ok (pos 0)
timeout_until (some left) = if is_pos left then ok left else err deadline_exceeded

module _ {S : Type 0} (calls : SocketHost S) where
  -- hostNetConn.Read and hostNetConn.Write, with the time that is left until their deadlines
  unfoldable pub net_read : Option ℤ → ℕ → Option TcpConn → S → Result SocketError (ℕ × Bytes) × S
  unfolding read_context
  net_read deadline size c s = elim (timeout_until deadline) [
    | err e ↦ (err e, s)
    | ok timeout ↦ read_context calls false size timeout c s
  ]

  unfoldable pub net_write : Option ℤ → Bytes → Option TcpConn → S → Result SocketError ℕ × S
  unfolding write_context
  net_write deadline payload c s = elim (timeout_until deadline) [
    | err e ↦ (err e, s)
    | ok timeout ↦ write_context calls false payload timeout c s
  ]

-- A timeout of less than a millisecond is passed to the host as a timeout of zero is.
pub milliseconds_lost : (n : ℕ) → n < 1000000 → milliseconds (pos n) ≡ milliseconds (pos 0)
milliseconds_lost n h = let e : n / 1000000 % 2 ^ 32 ≡ 0 = omega arith in e
