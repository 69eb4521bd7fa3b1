-- ===== src/Packet/Write.antt =====
-- What Flush puts on the wire, and that WritePacket's bytes are read back by ReadPacket.
use mathlib.Core.List.{append_assoc, append-nil}
use pcbu_desktop.Base.{
  ℕ, ◌+◌, ◌%◌, ◌^◌, ◌≤◌, ◌<◌, ◌≡◌, refl, ap, ◌∙◌, true, false, List, [], ◌∷◌, ◌++◌, some,
  Bool-cases, inl, inr, ◌⊎◌, Bytes, length, take, drop, length-drop, take-append-drop, arith,
}
use pcbu_desktop.Packet.{
  PacketError, no_error, is_error, Acceptance, took, refused, Outgoing, flush_loop, write_packet,
  frame,
}

-- What a flush of `bytes` leaves: an empty buffer, and a first part of the bytes on the wire, which
-- is all of them if no error is returned.
pub record Flushed (sent bytes : Bytes) (e : PacketError) (s : Outgoing) : Type 0 where
  pub emptied : s.write_buffer ≡ []
  pub part : Bytes
  pub left : Bytes
  pub splits : part ++ left ≡ bytes
  pub sent_part : s.sent ≡ sent ++ part
  pub complete : (left ≡ []) ⊎ (is_error e ≡ true)

flush_loop-Flushed :
    (sent bytes : Bytes) (ws : List Acceptance) {e : PacketError} {s : Outgoing}
    → flush_loop sent bytes ws ≡ some (e, s)
    → Flushed sent bytes e s
unfolding flush_loop
flush_loop-Flushed sent [] ws h = record {
  emptied = ground arith;
  part = [];
  left = [];
  splits = refl;
  sent_part = ground (arith, append-nil sent);
  complete = inl refl;
}
flush_loop-Flushed sent (b ∷ bs) [] h = cc
flush_loop-Flushed sent (b ∷ bs) (took n ∷ ws) h =
    let f = flush_loop-Flushed (sent ++ take n (b ∷ bs)) (drop n (b ∷ bs)) ws h in
    record {
      emptied = f.emptied;
      part = take n (b ∷ bs) ++ f.part;
      left = f.left;
      splits =
          append_assoc (take n (b ∷ bs)) f.part f.left
          ∙ ap (◌++◌ (take n (b ∷ bs))) f.splits
          ∙ take-append-drop n (b ∷ bs);
      sent_part = f.sent_part ∙ append_assoc sent (take n (b ∷ bs)) f.part;
      complete = f.complete;
    }
flush_loop-Flushed sent (b ∷ bs) (refused x ∷ ws) h = elim (Bool-cases (is_error x)) [
  | inl bad ↦
      let done = rw bad at h in
      record {
        emptied = ground arith;
        part = [];
        left = b ∷ bs;
        splits = refl;
        sent_part = ground (arith, append-nil sent);
        complete = inr (ground arith);
      }
  | inr fine ↦ flush_loop-Flushed sent (b ∷ bs) ws (rw fine at h)
]

-- How many bytes a schedule takes, and that it never fails.
abbrev pub capacity : List Acceptance → ℕ
capacity [] = 0
capacity (took n ∷ ws) = n + capacity ws
capacity (refused e ∷ ws) = capacity ws

abbrev pub IsWilling : List Acceptance → Type 0
IsWilling [] = Unit {0}
IsWilling (took n ∷ ws) = IsWilling ws
IsWilling (refused e ∷ ws) = (is_error e ≡ false) × IsWilling ws

flush_loop_returns :
    (sent bytes : Bytes) (ws : List Acceptance)
    → IsWilling ws
    → length bytes ≤ capacity ws
    → (s : Outgoing) × (flush_loop sent bytes ws ≡ some (no_error, s))
unfolding flush_loop
flush_loop_returns sent [] ws w h = (record { write_buffer = []; sent = sent; schedule = ws }, refl)
flush_loop_returns sent (b ∷ bs) [] w h = absurd (omega arith)
flush_loop_returns sent (b ∷ bs) (took n ∷ ws) w h =
    flush_loop_returns (sent ++ take n (b ∷ bs)) (drop n (b ∷ bs)) ws w
      (omega (arith, length-drop n (b ∷ bs)))
flush_loop_returns sent (b ∷ bs) (refused e ∷ ws) w h =
    rw w.0 (flush_loop_returns sent (b ∷ bs) ws w.1 h)

-- What WritePacket hands to Flush.
packet_bytes :
    (s : Outgoing) (id : ℕ) (payload : Bytes)
    → s.write_buffer ≡ []
    → id < 2 ^ 16
    → write_packet s id payload ≡ flush_loop s.sent (frame id payload) s.schedule
unfolding write_packet
packet_bytes s id payload empty h = let small : id % 2 ^ 16 ≡ id = omega arith in rw (empty, small)

module _ (s : Outgoing) (id : ℕ) (payload : Bytes) (empty : s.write_buffer ≡ [])
    (h : id < 2 ^ 16) where
  -- From an empty write buffer and for a 16-bit id, WritePacket leaves an empty buffer and a first part
  -- of the packet's frame on the wire, after an error too; without an error it is the whole frame.
  pub write_packet-Flushed :
      {e : PacketError} {s' : Outgoing}
      → write_packet s id payload ≡ some (e, s')
      → Flushed s.sent (frame id payload) e s'
  write_packet-Flushed r =
      flush_loop-Flushed s.sent (frame id payload) s.schedule
        (rw (packet_bytes s id payload empty h) at r)

  -- From an empty write buffer and for a 16-bit id: where the transport never fails and takes at least
  -- as many bytes as the frame has, WritePacket returns without an error.
  pub write_packet_returns :
      IsWilling s.schedule
      → length (frame id payload) ≤ capacity s.schedule
      → (s' : Outgoing) × (write_packet s id payload ≡ some (no_error, s'))
  write_packet_returns willing enough =
      rw (packet_bytes s id payload empty h)
        (flush_loop_returns s.sent (frame id payload) s.schedule willing enough)
