-- ===== src/Socket.antt =====
-- The stream on a socket: common/src/connection/stream/SocketStream.cpp, on Linux.
--
-- What the operating system answers to one Read or WriteRaw is a turn: the flag of the owner, whether the
-- socket has something to read, the result of the call, and the clock at its end, in nanoseconds.
pub mod Idle
pub mod Blocked
mod Tests
use pcbu_desktop.Base.{
  ℕ, ◌+◌, ◌*◌, Bool, true, false, not, ◌&&◌, List, [], ◌∷◌, ◌==◌, leb, if◌then◌else◌, Bytes,
}
use pcbu_desktop.Packet.{
  PacketError, unknown, no_error, closed_connection, timeout, Incoming, Arrival, got, failed,
  Acceptance, took, refused, is_error,
}

-- The error numbers that the code tells apart.
pub data SocketError : Type 0 where
  would_block in_progress try_again connect_refused host_unreachable : SocketError
  connect_aborted connect_reset net_unreachable timed_out broken_pipe other : SocketError

-- The result of SocketRead: at least one byte, 0, or -1 with the error number.
pub data SocketResult : Type 0 where
  received : ℕ → Bytes → SocketResult
  closed : SocketResult
  error : SocketError → SocketResult

-- `has_flag` is whether the owner gave its m_IsRunning. The timeout is in seconds, 0 for none.
pub record SocketStream : Type 0 where
  pub has_flag : Bool
  pub idle_timeout : ℕ
  pub last_activity : ℕ

pub record Turn : Type 0 where
  pub is_running : Bool
  pub waited_out : Bool
  pub result : SocketResult
  pub now : ℕ

unfoldable pub is_idle_timed_out : SocketStream → ℕ → Bool
is_idle_timed_out s now =
    if s.idle_timeout == 0 then false else leb (s.last_activity + s.idle_timeout * 1000000000) now

-- GetPacketError of a failed call.
unfoldable pub packet_error_of : SocketError → PacketError
packet_error_of would_block = no_error
packet_error_of in_progress = no_error
packet_error_of try_again = no_error
packet_error_of connect_refused = closed_connection
packet_error_of host_unreachable = closed_connection
packet_error_of connect_aborted = closed_connection
packet_error_of connect_reset = closed_connection
packet_error_of net_unreachable = closed_connection
packet_error_of timed_out = timeout
packet_error_of broken_pipe = closed_connection
packet_error_of other = unknown

-- GetPacketError with the result of the call.
unfoldable pub get_packet_error : SocketResult → PacketError
unfolding packet_error_of
get_packet_error (received b bs) = no_error
get_packet_error SocketResult.closed = closed_connection
get_packet_error (error e) = packet_error_of e

-- What a Read without bytes answers.
abbrev pub fail_or_idle : SocketStream → ℕ → PacketError → PacketError
fail_or_idle s now e = if not (is_error e) && is_idle_timed_out s now then timeout else e

-- The part of Read from the call of the operating system on.
unfoldable pub socket_read : SocketStream → SocketResult → ℕ → SocketStream × Arrival
unfolding get_packet_error is_idle_timed_out
socket_read s (received b bs) now = (record s { last_activity = now }, got (b ∷ bs))
socket_read s result now = (s, failed (fail_or_idle s now (get_packet_error result)))

unfoldable pub read : SocketStream → Turn → SocketStream × Arrival
unfolding socket_read is_idle_timed_out
read s t =
    if s.has_flag && not t.is_running
    then (s, failed closed_connection)
    else if s.has_flag && t.waited_out
    then (s, failed (if is_idle_timed_out s t.now then timeout else no_error))
    else socket_read s t.result t.now

-- What a schedule of turns is for the packet reader above.
unfoldable pub arrivals_of : SocketStream → List Turn → Incoming
unfolding read
arrivals_of s [] = []
arrivals_of s (t ∷ ts) = (read s t).1 ∷ arrivals_of (read s t).0 ts

-- The result of SocketWrite: `accepted n` is `n + 1` bytes, and `nothing` is 0.
pub data WriteResult : Type 0 where
  accepted : ℕ → WriteResult
  nothing : WriteResult
  write_failed : SocketError → WriteResult

-- One call of WriteRaw.
pub record WriteTurn : Type 0 where
  pub is_running : Bool
  pub result : WriteResult
  pub now : ℕ

unfoldable pub write_error : WriteResult → PacketError
unfolding packet_error_of
write_error (accepted n) = no_error
write_error nothing = closed_connection
write_error (write_failed e) = packet_error_of e

unfoldable pub socket_write : SocketStream → WriteResult → ℕ → SocketStream × Acceptance
unfolding write_error is_idle_timed_out
socket_write s (accepted n) now = (record s { last_activity = now }, took (n + 1))
socket_write s result now = (s, refused (fail_or_idle s now (write_error result)))

unfoldable pub write_raw : SocketStream → WriteTurn → SocketStream × Acceptance
unfolding socket_write
write_raw s t =
    if s.has_flag && not t.is_running
    then (s, refused closed_connection)
    else socket_write s t.result t.now

unfoldable pub acceptances_of : SocketStream → List WriteTurn → List Acceptance
unfolding write_raw
acceptances_of s [] = []
acceptances_of s (t ∷ ts) = (write_raw s t).1 ∷ acceptances_of (write_raw s t).0 ts
