-- ===== src/Packet/Cuts.antt =====
-- The reader of packets against the ways in which a stream cuts its bytes.
use pcbu_desktop.Base.{◌≡◌, sym, ◌∙◌, Option, none, some, Bytes}
use pcbu_desktop.Packet.{Packet, Incoming, read_packet}
use pcbu_desktop.Packet.Stream.{IsHealthy, pending}
use pcbu_desktop.Packet.RoundTrip.{Agrees, unframe, read_packet-unframe}

-- Two reads both wait, or give the same packet and leave streams of the same bytes.
abbrev pub IsSameRead : Option (Packet × Incoming) → Option (Packet × Incoming) → Type 0
IsSameRead none none = Unit {0}
IsSameRead (some (p, a)) (some (q, b)) = (p ≡ q) × (pending a ≡ pending b)
IsSameRead _ _ = ⊥

Agrees-IsSameRead :
    (r t : Option (Packet × Incoming)) (u : Option (Packet × Bytes))
    → Agrees r u
    → Agrees t u
    → IsSameRead r t
Agrees-IsSameRead none none none h g = tt
Agrees-IsSameRead none none (some u) h g = absurd h
Agrees-IsSameRead none (some x) none h g = absurd g
Agrees-IsSameRead none (some x) (some u) h g = absurd h
Agrees-IsSameRead (some x) none none h g = absurd h
Agrees-IsSameRead (some x) none (some u) h g = absurd g
Agrees-IsSameRead (some (p, a)) (some (q, b)) none h g = absurd h
Agrees-IsSameRead (some (p, a)) (some (q, b)) (some (u, bytes)) h g = (h.0 ∙ sym g.0, h.1 ∙ sym g.1)

-- On streams without failed reads, ReadPacket depends only on the bytes and not on how they are cut into
-- arrivals: on two streams of the same bytes it waits on both, or returns the same packet and leaves the same
-- bytes.
pub read_packet-IsSameRead :
    (a b : Incoming)
    → IsHealthy a
    → IsHealthy b
    → pending a ≡ pending b
    → IsSameRead (read_packet a) (read_packet b)
read_packet-IsSameRead a b h g e =
    Agrees-IsSameRead (read_packet a) (read_packet b) (unframe (pending b))
      (rw e at (read_packet-unframe a h)) (read_packet-unframe b g)
