-- ===== src/Sockets/Closing.antt =====
-- sdk/tcp.go: the calls that a plugin makes on a connection once it has closed it.
use serviceradar_sdk_go.Base.{
  ℕ, Bool, List, [], ◌∷◌, ◌≡◌, refl, Option, none, some, if◌then◌else◌, map, arith, Result, ok, err,
  true, false,
}
use serviceradar_sdk_go.Strings.{Bytes, ℤ, pos, is_pos}
use serviceradar_sdk_go.Host.{HostResult, fine, failed}
use serviceradar_sdk_go.Sockets.{
  TcpConn, SocketHost, SocketError, cancelled, not_initialized, host, conn_handle, read_context,
  write_context, close, timeout_until, net_read, net_write,
}

-- A call on a connection; `net_reading` and `net_writing` are those of its net.Conn.
pub data TcpCall : Type 0 where
  reading : Bool → ℕ → ℤ → TcpCall
  writing : Bool → Bytes → ℤ → TcpCall
  net_reading : Option ℤ → ℕ → TcpCall
  net_writing : Option ℤ → Bytes → TcpCall
  closing : TcpCall

-- The error of a result
abbrev error_of : {A : Type 0} → Result SocketError A → Option SocketError
error_of (ok a) = none
error_of (err e) = some e

abbrev host_error_of : HostResult → Option SocketError
host_error_of fine = none
host_error_of (failed e) = some (host e)

-- What a closed connection answers
abbrev refusal : Bool → Option SocketError
refusal done = some (if done then cancelled else not_initialized)

abbrev net_refusal : Result SocketError ℤ → Option SocketError
net_refusal (err e) = some e
net_refusal (ok timeout) = some not_initialized

unfoldable pub refused : TcpCall → Option SocketError
refused (reading done size timeout) = refusal done
refused (writing done payload timeout) = refusal done
refused (net_reading deadline size) = net_refusal (timeout_until deadline)
refused (net_writing deadline payload) = net_refusal (timeout_until deadline)
refused closing = none

module _ {S : Type 0} (calls : SocketHost S) where
  abbrev kept :
      {A : Type 0}
      → Option TcpConn
      → Result SocketError A × S
      → Option SocketError × (Option TcpConn × S)
  kept c (answer, s) = (error_of answer, (c, s))

  abbrev closed : HostResult × (Option TcpConn × S) → Option SocketError × (Option TcpConn × S)
  closed (answer, after) = (host_error_of answer, after)

  -- The error that a call answers, the connection and the host after it
  unfoldable pub call : TcpCall → Option TcpConn × S → Option SocketError × (Option TcpConn × S)
  call (reading done size timeout) (c, s) = kept c (read_context calls done size timeout c s)
  call (writing done payload timeout) (c, s) = kept c (write_context calls done payload timeout c s)
  call (net_reading deadline size) (c, s) = kept c (net_read calls deadline size c s)
  call (net_writing deadline payload) (c, s) = kept c (net_write calls deadline payload c s)
  call closing (c, s) = closed (close calls c s)

  unfoldable pub call_all :
      List TcpCall → Option TcpConn × S → List (Option SocketError) × (Option TcpConn × S)
  call_all [] before = ([], before)
  call_all (x ∷ rest) before =
      let (answer, after) = call x before in
      let (answers, last) = call_all rest after in (answer ∷ answers, last)

  close_handle : (c : Option TcpConn) (s : S) → conn_handle ((close calls c s).1.0) ≡ 0
  unfolding close
  close_handle c s = ground arith

  read_refused :
      (done : Bool) (size : ℕ) (timeout : ℤ) (c : Option TcpConn) (s : S)
      → conn_handle c ≡ 0
      → kept c (read_context calls done size timeout c s) ≡ (refusal done, (c, s))
  unfolding read_context
  read_refused done size timeout c s e = ground (arith, e)

  write_refused :
      (done : Bool) (payload : Bytes) (timeout : ℤ) (c : Option TcpConn) (s : S)
      → conn_handle c ≡ 0
      → kept c (write_context calls done payload timeout c s) ≡ (refusal done, (c, s))
  unfolding write_context
  write_refused done payload timeout c s e = ground (arith, e)

  close_refused :
      (c : Option TcpConn) (s : S) → conn_handle c ≡ 0 → closed (close calls c s) ≡ (none, (c, s))
  unfolding close
  close_refused c s e = ground (arith, e)

  net_read_refused :
      (deadline : Option ℤ) (size : ℕ) (c : Option TcpConn) (s : S)
      → conn_handle c ≡ 0
      → kept c (net_read calls deadline size c s) ≡ (net_refusal (timeout_until deadline), (c, s))
  unfolding net_read
  net_read_refused none size c s e = read_refused false size (pos 0) c s e
  net_read_refused (some left) size c s e = within (is_pos left) refl
    where
      within :
          (b : Bool)
          → is_pos left ≡ b
          → kept c (net_read calls (some left) size c s)
            ≡ (net_refusal (timeout_until (some left)), (c, s))
      within true q = rw (net_read, q) (read_refused false size left c s e)
      within false q = rw (net_read, q) refl

  net_write_refused :
      (deadline : Option ℤ) (payload : Bytes) (c : Option TcpConn) (s : S)
      → conn_handle c ≡ 0
      → kept c (net_write calls deadline payload c s)
        ≡ (net_refusal (timeout_until deadline), (c, s))
  unfolding net_write
  net_write_refused none payload c s e = write_refused false payload (pos 0) c s e
  net_write_refused (some left) payload c s e = within (is_pos left) refl
    where
      within :
          (b : Bool)
          → is_pos left ≡ b
          → kept c (net_write calls (some left) payload c s)
            ≡ (net_refusal (timeout_until (some left)), (c, s))
      within true q = rw (net_write, q) (write_refused false payload left c s e)
      within false q = rw (net_write, q) refl

  call-refused :
      (x : TcpCall) (c : Option TcpConn) (s : S)
      → conn_handle c ≡ 0
      → call x (c, s) ≡ (refused x, (c, s))
  unfolding call refused
  call-refused (reading done size timeout) c s e = read_refused done size timeout c s e
  call-refused (writing done payload timeout) c s e = write_refused done payload timeout c s e
  call-refused (net_reading deadline size) c s e = net_read_refused deadline size c s e
  call-refused (net_writing deadline payload) c s e = net_write_refused deadline payload c s e
  call-refused closing c s e = close_refused c s e

  call_all-refused :
      (later : List TcpCall) (c : Option TcpConn) (s : S)
      → conn_handle c ≡ 0
      → call_all later (c, s) ≡ (map refused later, (c, s))
  unfolding call_all
  call_all-refused [] c s e = refl
  call_all-refused (x ∷ rest) c s e =
      rw (call_all, call-refused x c s e, call_all-refused rest c s e) refl

  -- Once a connection is closed, whatever the host answered to that, no later call on it reaches the
  -- host or changes the connection: a read or a write answers that the connection is not
  -- initialized, or that its context is done or its deadline has passed, and a close succeeds.
  pub call_all-close :
      (c : Option TcpConn) (s : S) (later : List TcpCall)
      → call_all later ((close calls c s).1) ≡ (map refused later, (close calls c s).1)
  call_all-close c s later =
      let after = (close calls c s).1 in call_all-refused later after.0 after.1 (close_handle c s)
