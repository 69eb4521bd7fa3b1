-- ===== src/Socket/Blocked.antt =====
-- Writes over a socket: the silence of a peer and the stop of an owner.
use pcbu_desktop.Base.{
  ℕ, ◌≡◌, ◌≢◌, refl, ◌⊎◌, inl, inr, true, false, not, ◌&&◌, List, [], ◌∷◌, none, Bytes, Bool-cases,
}
use pcbu_desktop.Packet.{PacketError, Acceptance, took, refused, is_error, write_packet}
use pcbu_desktop.Packet.Ends.{HasRefusal, write_packet_ends}
use pcbu_desktop.Socket.{
  SocketStream, fail_or_idle, WriteTurn, WriteResult, accepted, nothing, write_failed, write_error,
  socket_write, write_raw, acceptances_of,
}
use pcbu_desktop.Socket.Idle.{IsPast, fail_or_idle-error}

-- The owner has stopped, or the peer takes nothing and the timeout is over.
abbrev pub IsBlocked : WriteResult → Type 0
IsBlocked (accepted n) = ⊥
IsBlocked _ = Unit {0}

abbrev pub IsWriteOver : SocketStream → List WriteTurn → Type 0
IsWriteOver s [] = ⊥
IsWriteOver s (t ∷ ts) =
    ((s.has_flag ≡ true) × (t.is_running ≡ false))
    ⊎ (IsBlocked t.result × IsPast s t.now)
    ⊎ IsWriteOver (write_raw s t).0 ts

abbrev RefusesAt : Acceptance → Type 0
RefusesAt a = (e : PacketError) × (a ≡ refused e) × (is_error e ≡ true)

HasRefusal-head : (a : Acceptance) (rest : List Acceptance) → RefusesAt a → HasRefusal (a ∷ rest)
HasRefusal-head a rest (e, same, fails) = rw same (inl fails)

HasRefusal-tail :
    (a : Acceptance) (rest : List Acceptance) → HasRefusal rest → HasRefusal (a ∷ rest)
HasRefusal-tail (took n) rest h = h
HasRefusal-tail (refused e) rest h = inr h

socket_write-past :
    (s : SocketStream) (result : WriteResult) (now : ℕ)
    → IsBlocked result
    → IsPast s now
    → RefusesAt (socket_write s result now).1
unfolding socket_write
socket_write-past s (accepted n) now blocked past = absurd blocked
socket_write-past s nothing now blocked past = (
  fail_or_idle s now (write_error nothing),
  refl,
  fail_or_idle-error s now (write_error nothing) past,
)
socket_write-past s (write_failed e) now blocked past = (
  fail_or_idle s now (write_error (write_failed e)),
  refl,
  fail_or_idle-error s now (write_error (write_failed e)) past,
)

write_raw-past :
    (s : SocketStream) (t : WriteTurn)
    → IsBlocked t.result
    → IsPast s t.now
    → RefusesAt (write_raw s t).1
unfolding write_raw
write_raw-past s t blocked past = elim (Bool-cases (s.has_flag && not t.is_running)) [
  | inl stopped ↦ rw stopped (PacketError.closed_connection, refl, refl)
  | inr goes_on ↦ rw goes_on (socket_write-past s t.result t.now blocked past)
]

write_raw-stopped :
    (s : SocketStream) (t : WriteTurn)
    → s.has_flag ≡ true
    → t.is_running ≡ false
    → RefusesAt (write_raw s t).1
unfolding write_raw
write_raw-stopped s t flag stopped = rw (flag, stopped) (PacketError.closed_connection, refl, refl)

acceptances_of-HasRefusal :
    (s : SocketStream) (ts : List WriteTurn) → IsWriteOver s ts → HasRefusal (acceptances_of s ts)
unfolding acceptances_of
acceptances_of-HasRefusal s [] h = h
acceptances_of-HasRefusal s (t ∷ ts) (inl (flag, stopped)) =
    HasRefusal-head (write_raw s t).1 _ (write_raw-stopped s t flag stopped)
acceptances_of-HasRefusal s (t ∷ ts) (inr (inl (blocked, past))) =
    HasRefusal-head (write_raw s t).1 _ (write_raw-past s t blocked past)
acceptances_of-HasRefusal s (t ∷ ts) (inr (inr later)) =
    HasRefusal-tail (write_raw s t).1 _ (acceptances_of-HasRefusal (write_raw s t).0 ts later)

-- WritePacket over a socket returns, whatever was taken before: at the latest in a turn in which the owner has
-- stopped, or in which nothing is taken and the idle timeout since the last bytes is over.
pub write_packet-IsWriteOver :
    (s : SocketStream) (ts : List WriteTurn) (buffer sent : Bytes) (id : ℕ) (payload : Bytes)
    → IsWriteOver s ts
    → write_packet
        (record { write_buffer = buffer; sent = sent; schedule = acceptances_of s ts })
        id
        payload
      ≢ none
write_packet-IsWriteOver s ts buffer sent id payload h e = rw e at (
    write_packet_ends
      (record { write_buffer = buffer; sent = sent; schedule = acceptances_of s ts }) id payload
      (acceptances_of-HasRefusal s ts h))
