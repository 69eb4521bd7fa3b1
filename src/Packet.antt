-- ===== src/Packet.antt =====
-- Framed packets over a byte stream: common/src/connection/BaseConnection.cpp (ReadPacket,
-- WritePacket, ReadData) and common/src/connection/stream/ConnectionStream.cpp (Write, Flush).
--
-- The transport below the stream (SocketStream, WebSocketStream, RFCOMMStream) is a schedule of
-- answers: `Arrival` is what one `Read` may be answered with, and a `Read` for fewer bytes than
-- have arrived leaves the others for the next one; `Acceptance` is what one `WriteRaw` answers.
-- Where the schedule ends the loop is still waiting, and the result is `none`.
pub mod Stream
pub mod RoundTrip
pub mod Write
pub mod Cuts
pub mod Ends
mod Tests
use pcbu_desktop.Base.{
  ℕ, zero, suc, ◌+◌, ◌-◌, ◌*◌, ◌/◌, ◌%◌, ◌^◌, Bool, true, false, not, ◌&&◌, ◌||◌, List, [], ◌∷◌,
  ◌++◌, Option, none, some, ◌==◌, leb, if◌then◌else◌, Bytes, length, take, drop, get_or, is_empty,
}

pub data PacketError : Type 0 where
  unknown no_error closed_connection timeout unsupported_version peer_unavailable : PacketError

abbrev pub is_error : PacketError → Bool
is_error no_error = false
is_error _ = true

pub record Packet : Type 0 where
  pub error : PacketError
  pub id : ℕ
  pub payload : Bytes

abbrev pub error_packet : PacketError → Packet
error_packet e = record { error = e; id = 0; payload = [] }

-- `got []` and `failed no_error` are reads of no bytes without an error.
pub data Arrival : Type 0 where
  got : Bytes → Arrival
  failed : PacketError → Arrival

abbrev pub Incoming : Type 0
Incoming = List Arrival

-- Big-endian bytes: `htonll`, `htons`, and back.
unfoldable pub be_bytes : ℕ → ℕ → Bytes
be_bytes zero x = []
be_bytes (suc n) x = (x / 256 ^ n % 256) ∷ be_bytes n x

unfoldable pub be_value : ℕ → Bytes → ℕ
be_value acc [] = acc
be_value acc (b ∷ bs) = be_value (acc * 256 + b) bs

abbrev pub packet_header : ℕ
packet_header = 0xDB065AC7AFDFA4CC

abbrev pub header_bytes : Bytes
unfolding be_bytes
header_bytes = be_bytes 8 packet_header

-- One round of the header loop, on a byte that was read.
unfoldable pub scan_byte : ℕ → ℕ → ℕ
unfolding be_bytes
scan_byte correct b = if b == get_or header_bytes correct 0 then correct + 1 else 0

-- The header loop over one arrival: the count reached, and the bytes left.
unfoldable pub scan_chunk : ℕ → Bytes → ℕ × Bytes
unfolding scan_byte
scan_chunk correct [] = (correct, [])
scan_chunk correct (b ∷ bs) =
    let next = scan_byte correct b in
    let rest = scan_chunk next bs in if leb 8 next then (next, bs) else rest

unfoldable pub scan_header : ℕ → Incoming → Option (PacketError × Incoming)
unfolding scan_chunk
scan_header correct [] = none
scan_header correct (got bs ∷ arrivals) =
    let (next, left) = scan_chunk correct bs in
    let rest = scan_header next arrivals in
    if leb 8 next then some (no_error, got left ∷ arrivals) else rest
scan_header correct (failed e ∷ arrivals) =
    let rest = scan_header correct arrivals in if is_error e then some (e, arrivals) else rest

-- `ReadData`, on the bytes still missing and the buffer so far.
unfoldable pub read_loop : ℕ → Bytes → Incoming → Option ((PacketError × Bytes) × Incoming)
read_loop zero buffer arrivals = some ((no_error, buffer), arrivals)
read_loop (suc n) buffer [] = none
read_loop (suc n) buffer (got bs ∷ arrivals) =
    let rest = read_loop (suc n - length bs) (buffer ++ bs) arrivals in
    if leb (suc n) (length bs)
    then some ((no_error, buffer ++ take (suc n) bs), got (drop (suc n) bs) ∷ arrivals)
    else rest
read_loop (suc n) buffer (failed e ∷ arrivals) =
    let rest = read_loop (suc n) buffer arrivals in
    if is_error e then some ((e, []), arrivals) else rest

abbrev pub read_data : ℕ → Incoming → Option ((PacketError × Bytes) × Incoming)
read_data size arrivals = read_loop size [] arrivals

read_payload : ℕ → ℕ → Incoming → Option (Packet × Incoming)
read_payload id size arrivals = elim (read_data size arrivals) [
  | none ↦ none
  | some ((e, bs), rest) ↦
      if is_error e || not (length bs == size)
      then some (error_packet e, rest)
      else some (record { error = no_error; id = id; payload = bs }, rest)
]

read_length : ℕ → Incoming → Option (Packet × Incoming)
unfolding read_payload be_value
read_length id arrivals = elim (read_data 2 arrivals) [
  | none ↦ none
  | some ((e, bs), rest) ↦
      if is_error e || not (length bs == 2)
      then some (error_packet e, rest)
      else if be_value 0 bs == 0
      then some (error_packet unknown, rest)
      else read_payload id (be_value 0 bs) rest
]

read_id : Incoming → Option (Packet × Incoming)
unfolding read_length be_value
read_id arrivals = elim (read_data 2 arrivals) [
  | none ↦ none
  | some ((e, bs), rest) ↦
      if is_error e || not (length bs == 2)
      then some (error_packet e, rest)
      else read_length (be_value 0 bs) rest
]

unfoldable pub read_packet : Incoming → Option (Packet × Incoming)
unfolding scan_header read_id
read_packet arrivals = elim (scan_header 0 arrivals) [
  | none ↦ none
  | some (e, rest) ↦ if is_error e then some (error_packet e, rest) else read_id rest
]

-- One `WriteRaw` takes some of the bytes it is offered, or fails.
pub data Acceptance : Type 0 where
  took : ℕ → Acceptance
  refused : PacketError → Acceptance

-- The sending half of a ConnectionStream, with what the transport has taken.
pub record Outgoing : Type 0 where
  pub write_buffer : Bytes
  pub sent : Bytes
  pub schedule : List Acceptance

unfoldable pub write : Outgoing → Bytes → Outgoing
write s bytes = record s { write_buffer = s.write_buffer ++ bytes }

-- The loop of `Flush` over the bytes not yet written.
unfoldable pub flush_loop : Bytes → Bytes → List Acceptance → Option (PacketError × Outgoing)
flush_loop sent [] ws = some (no_error, record { write_buffer = []; sent = sent; schedule = ws })
flush_loop sent (b ∷ bs) [] = none
flush_loop sent (b ∷ bs) (took n ∷ ws) = flush_loop (sent ++ take n (b ∷ bs)) (drop n (b ∷ bs)) ws
flush_loop sent (b ∷ bs) (refused e ∷ ws) =
    let rest = flush_loop sent (b ∷ bs) ws in
    if is_error e then some (e, record { write_buffer = []; sent = sent; schedule = ws }) else rest

unfoldable pub flush : Outgoing → Option (PacketError × Outgoing)
unfolding flush_loop
flush s = flush_loop s.sent s.write_buffer s.schedule

unfoldable pub write_packet : Outgoing → ℕ → Bytes → Option (PacketError × Outgoing)
unfolding write flush be_bytes
write_packet s id payload =
    let s1 = write s (be_bytes 8 packet_header) in
    let s2 = write s1 (be_bytes 2 (id % 2 ^ 16)) in
    let s3 = write s2 (be_bytes 2 (length payload % 2 ^ 16)) in flush (write s3 payload)

-- The bytes of one packet on the wire.
abbrev pub frame : ℕ → Bytes → Bytes
frame id payload =
    header_bytes ++ (be_bytes 2 id ++ (be_bytes 2 (length payload % 2 ^ 16) ++ payload))
