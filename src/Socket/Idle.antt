-- ===== src/Socket/Idle.antt =====
-- Reads of packets over a socket: the silence of a peer and the stop of an owner.
use pcbu_desktop.Base.{
  ℕ, ◌+◌, ◌*◌, ◌≤◌, ◌<◌, ◌≡◌, ◌≢◌, refl, ◌⊎◌, inl, inr, Bool, true, false, not, ◌&&◌, ◌||◌,
  if◌then◌else◌, List, [], ◌∷◌, none, Bool-cases, arith,
}
use pcbu_desktop.Packet.{
  PacketError, Incoming, Arrival, got, failed, timeout, is_error, read_packet,
}
use pcbu_desktop.Packet.Ends.{HasFailure, read_packet-Returns}
use pcbu_desktop.Socket.{
  SocketStream, Turn, SocketResult, received, timed_out, error, SocketError, is_idle_timed_out,
  fail_or_idle, get_packet_error, socket_read, read, arrivals_of, packet_error_of,
}

-- The timeout is over at a time.
abbrev pub IsPast : SocketStream → ℕ → Type 0
IsPast s now = (0 < s.idle_timeout) × (s.last_activity + s.idle_timeout * 1000000000 ≤ now)

-- The time of the last bytes: of those of a turn that has some, and else as before.
abbrev pub bytes_time : ℕ → SocketResult → ℕ → ℕ
bytes_time last (received b bs) now = now
bytes_time last _ now = last

abbrev pub last_bytes : Bool → ℕ → Turn → ℕ
last_bytes has_flag last t =
    if has_flag && (not t.is_running || t.waited_out) then last else bytes_time last t.result t.now

-- The idle timeout, in seconds, is over at a time since the last bytes.
abbrev pub IsIdle : ℕ → ℕ → ℕ → Type 0
IsIdle idle_timeout last now = (0 < idle_timeout) × (last + idle_timeout * 1000000000 ≤ now)

-- No bytes are read in the turn.
abbrev pub IsSilent : Bool → Turn → Type 0
IsSilent has_flag t =
    ((has_flag && t.waited_out) ≡ true) ⊎ ((e : SocketError) × (t.result ≡ error e))

-- In some turn the owner has stopped, or the socket is silent and its timeout since the last bytes is over.
abbrev pub IsOver : Bool → ℕ → ℕ → List Turn → Type 0
IsOver has_flag idle_timeout last [] = ⊥
IsOver has_flag idle_timeout last (t ∷ ts) =
    ((has_flag ≡ true) × (t.is_running ≡ false))
    ⊎ (IsSilent has_flag t × IsIdle idle_timeout last t.now)
    ⊎ IsOver has_flag idle_timeout (last_bytes has_flag last t) ts

-- A timeout is answered only where it is over, or where the operating system has given it.
abbrev pub IsDue : ℕ → ℕ → Turn → Arrival → Type 0
IsDue idle_timeout last t (failed timeout) =
    IsIdle idle_timeout last t.now ⊎ (t.result ≡ error timed_out)
IsDue idle_timeout last t _ = Unit {0}

abbrev pub AreDue : Bool → ℕ → ℕ → List Turn → Incoming → Type 0
AreDue has_flag idle_timeout last [] arrivals = Unit {0}
AreDue has_flag idle_timeout last (t ∷ ts) [] = ⊥
AreDue has_flag idle_timeout last (t ∷ ts) (a ∷ arrivals) =
    IsDue idle_timeout last t a
    × AreDue has_flag idle_timeout (last_bytes has_flag last t) ts arrivals

IsPast-timed_out : (s : SocketStream) (now : ℕ) → IsPast s now → is_idle_timed_out s now ≡ true
unfolding is_idle_timed_out
IsPast-timed_out s now h = ground arith

-- A silent socket past its timeout has an error.
pub fail_or_idle-error :
    (s : SocketStream) (now : ℕ) (e : PacketError)
    → IsPast s now
    → is_error (fail_or_idle s now e) ≡ true
fail_or_idle-error s now e h = elim (Bool-cases (is_error e)) [
  | inl fails ↦ rw fails fails
  | inr fine ↦ rw (fine, IsPast-timed_out s now h) refl
]

-- The head of a schedule that fails, with any others behind it.
HasFailure-head :
    (a : Arrival) (rest : List Arrival) (e : PacketError)
    → a ≡ failed e
    → is_error e ≡ true
    → HasFailure (a ∷ rest)
HasFailure-head a rest e same fails = rw same (inl fails)

HasFailure-tail : (a : Arrival) (rest : List Arrival) → HasFailure rest → HasFailure (a ∷ rest)
HasFailure-tail (got bs) rest h = h
HasFailure-tail (failed e) rest h = inr h

read-stopped :
    (s : SocketStream) (t : Turn)
    → s.has_flag ≡ true
    → t.is_running ≡ false
    → (read s t).1 ≡ failed PacketError.closed_connection
unfolding read
read-stopped s t flag stopped = rw (flag, stopped) refl

-- A Read in a turn without bytes past the timeout.
abbrev FailsAt : Arrival → Type 0
FailsAt a = (e : PacketError) × (a ≡ failed e) × (is_error e ≡ true)

socket_read-past :
    (s : SocketStream) (e : SocketError) (now : ℕ)
    → IsPast s now
    → FailsAt (socket_read s (error e) now).1
unfolding socket_read get_packet_error
socket_read-past s e now past = (
  fail_or_idle s now (packet_error_of e),
  refl,
  fail_or_idle-error s now (packet_error_of e) past,
)

read-silent :
    (s : SocketStream) (t : Turn) → IsSilent s.has_flag t → IsPast s t.now → FailsAt (read s t).1
unfolding read
read-silent s t silent past = elim (Bool-cases (s.has_flag && not t.is_running)) [
  | inl stopped ↦ rw stopped (PacketError.closed_connection, refl, refl)
  | inr goes_on ↦ elim (Bool-cases (s.has_flag && t.waited_out)) [
    | inl waited ↦ (timeout, rw (goes_on, waited, IsPast-timed_out s t.now past) refl, refl)
    | inr ready ↦ elim silent [
      | inl waited ↦ absurd cc
      | inr (e, result) ↦ rw (goes_on, ready, result) (socket_read-past s e t.now past)
    ]
  ]
]

socket_read-state :
    (s : SocketStream) (result : SocketResult) (now : ℕ)
    → (socket_read s result now).0
      ≡ record s { last_activity = bytes_time s.last_activity result now }
unfolding socket_read
socket_read-state s (received b bs) now = refl
socket_read-state s SocketResult.closed now = refl
socket_read-state s (error e) now = refl

read-state :
    (s : SocketStream) (t : Turn)
    → (read s t).0 ≡ record s { last_activity = last_bytes s.has_flag s.last_activity t }
unfolding read
read-state s t = elim (Bool-cases (s.has_flag && not t.is_running)) [
  | inl stopped ↦
      let none_read : (s.has_flag && (not t.is_running || t.waited_out)) ≡ true = ground arith in
      rw (stopped, none_read) refl
  | inr goes_on ↦ elim (Bool-cases (s.has_flag && t.waited_out)) [
    | inl waited ↦
        let none_read : (s.has_flag && (not t.is_running || t.waited_out)) ≡ true = ground arith in
        rw (goes_on, waited, none_read) refl
    | inr ready ↦
        let reads : (s.has_flag && (not t.is_running || t.waited_out)) ≡ false = ground arith in
        rw (goes_on, ready, reads) (socket_read-state s t.result t.now)
  ]
]

arrivals_of-HasFailure :
    (s : SocketStream) (ts : List Turn)
    → IsOver s.has_flag s.idle_timeout s.last_activity ts
    → HasFailure (arrivals_of s ts)
unfolding arrivals_of
arrivals_of-HasFailure s [] h = h
arrivals_of-HasFailure s (t ∷ ts) (inl (flag, stopped)) =
    HasFailure-head (read s t).1 _ PacketError.closed_connection (read-stopped s t flag stopped)
      refl
arrivals_of-HasFailure s (t ∷ ts) (inr (inl (silent, past))) =
    let (e, same, fails) = read-silent s t silent past in
    HasFailure-head (read s t).1 _ e same fails
arrivals_of-HasFailure s (t ∷ ts) (inr (inr later)) =
    let next = record s { last_activity = last_bytes s.has_flag s.last_activity t } in
    HasFailure-tail (read s t).1 _ (rw (read-state s t) (arrivals_of-HasFailure next ts later))

is_idle_timed_out-IsIdle :
    (s : SocketStream) (now : ℕ)
    → is_idle_timed_out s now ≡ true
    → IsIdle s.idle_timeout s.last_activity now
unfolding is_idle_timed_out
is_idle_timed_out-IsIdle s now h = ground arith

fail_or_idle-IsDue :
    (s : SocketStream) (t : Turn) (e : PacketError)
    → IsDue s.idle_timeout s.last_activity t (failed e)
    → IsDue s.idle_timeout s.last_activity t (failed (fail_or_idle s t.now e))
fail_or_idle-IsDue s t e due = elim (Bool-cases (not (is_error e) && is_idle_timed_out s t.now)) [
  | inl idle ↦ rw (idle, IsDue) (inl (is_idle_timed_out-IsIdle s t.now (ground arith)))
  | inr other ↦ rw other due
]

packet_error_of-IsDue :
    (idle_timeout last : ℕ) (t : Turn) (e : SocketError)
    → t.result ≡ error e
    → IsDue idle_timeout last t (failed (packet_error_of e))
unfolding packet_error_of
packet_error_of-IsDue idle_timeout last t SocketError.would_block h = tt
packet_error_of-IsDue idle_timeout last t SocketError.in_progress h = tt
packet_error_of-IsDue idle_timeout last t SocketError.try_again h = tt
packet_error_of-IsDue idle_timeout last t SocketError.connect_refused h = tt
packet_error_of-IsDue idle_timeout last t SocketError.host_unreachable h = tt
packet_error_of-IsDue idle_timeout last t SocketError.connect_aborted h = tt
packet_error_of-IsDue idle_timeout last t SocketError.connect_reset h = tt
packet_error_of-IsDue idle_timeout last t SocketError.net_unreachable h = tt
packet_error_of-IsDue idle_timeout last t SocketError.timed_out h = inr h
packet_error_of-IsDue idle_timeout last t SocketError.broken_pipe h = tt
packet_error_of-IsDue idle_timeout last t SocketError.other h = tt

socket_read-IsDue :
    (s : SocketStream) (t : Turn) (result : SocketResult)
    → t.result ≡ result
    → IsDue s.idle_timeout s.last_activity t (socket_read s result t.now).1
unfolding socket_read get_packet_error
socket_read-IsDue s t (received b bs) h = tt
socket_read-IsDue s t SocketResult.closed h =
    fail_or_idle-IsDue s t PacketError.closed_connection tt
socket_read-IsDue s t (error e) h =
    fail_or_idle-IsDue s t (packet_error_of e)
      (packet_error_of-IsDue s.idle_timeout s.last_activity t e h)

read-IsDue : (s : SocketStream) (t : Turn) → IsDue s.idle_timeout s.last_activity t (read s t).1
unfolding read
read-IsDue s t = elim (Bool-cases (s.has_flag && not t.is_running)) [
  | inl stopped ↦ rw (stopped, IsDue) tt
  | inr goes_on ↦ elim (Bool-cases (s.has_flag && t.waited_out)) [
    | inr ready ↦ rw (goes_on, ready) (socket_read-IsDue s t t.result refl)
    | inl waited ↦ elim (Bool-cases (is_idle_timed_out s t.now)) [
      | inl idle ↦ rw (goes_on, waited, idle, IsDue) (inl (is_idle_timed_out-IsIdle s t.now idle))
      | inr fresh ↦ rw (goes_on, waited, fresh, IsDue) tt
    ]
  ]
]

arrivals_of-AreDue :
    (s : SocketStream) (ts : List Turn)
    → AreDue s.has_flag s.idle_timeout s.last_activity ts (arrivals_of s ts)
unfolding arrivals_of
arrivals_of-AreDue s [] = tt
arrivals_of-AreDue s (t ∷ ts) =
    let next = record s { last_activity = last_bytes s.has_flag s.last_activity t } in
    (read-IsDue s t, rw (read-state s t) (arrivals_of-AreDue next ts))

-- ReadPacket over a socket returns, whatever arrives before: at the latest in a turn in which the owner has
-- stopped, or in which nothing is read and the idle timeout since the last bytes is over. The last bytes are
-- those of the last turn that read some, and before the first such turn they came at the activity that the
-- stream has recorded. And no turn answers a timeout before the idle timeout since the last bytes is over,
-- unless the operating system gives it.
pub read_packet-IsOver :
    (s : SocketStream) (ts : List Turn)
    → IsOver s.has_flag s.idle_timeout s.last_activity ts
    → (read_packet (arrivals_of s ts) ≢ none)
      × AreDue s.has_flag s.idle_timeout s.last_activity ts (arrivals_of s ts)
read_packet-IsOver s ts h = (
  λ e. rw e at (read_packet-Returns (arrivals_of s ts) (arrivals_of-HasFailure s ts h)),
  arrivals_of-AreDue s ts,
)
