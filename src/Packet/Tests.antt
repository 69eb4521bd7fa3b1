-- ===== src/Packet/Tests.antt =====
-- Runs of the packet reader and writer on concrete streams.
use pcbu_desktop.Base.{ℕ, ◌≡◌, ◌≢◌, refl, false, [], ◌∷◌, ◌++◌, some, none, ◌==◌, arith}
use pcbu_desktop.Packet.{
  Incoming, got, failed, no_error, read_packet, be_bytes, read_loop, Outgoing, took, refused,
  write_packet, frame, flush_loop, flush, write,
}
use pcbu_desktop.Packet.RoundTrip.{Agrees, read_packet-frame, read_packet-stray}
use pcbu_desktop.Packet.Cuts.{IsSameRead, read_packet-IsSameRead}
use pcbu_desktop.Packet.Write.{Flushed, write_packet-Flushed}

abbrev split_frame : Incoming
split_frame =
    got (1 ∷ 2 ∷ 0xDB ∷ 0x06 ∷ [])
    ∷ failed no_error
    ∷ got (0x5A ∷ 0xC7 ∷ 0xAF ∷ 0xDF ∷ 0xA4 ∷ 0xCC ∷ 0 ∷ [])
    ∷ got (0xB0 ∷ 0 ∷ 2 ∷ 7 ∷ [])
    ∷ got (8 ∷ 9 ∷ [])
    ∷ []

read_split :
    read_packet split_frame
    ≡ some (record { error = no_error; id = 0xB0; payload = 7 ∷ 8 ∷ [] }, got (9 ∷ []) ∷ [])
unfolding read_packet be_bytes read_loop
read_split = refl

apart : (a b : ℕ) → (a == b) ≡ false → a ≢ b
apart a b h = ground arith

abbrev whole_frame : Incoming
whole_frame =
    got (
      1 ∷ 2 ∷ 0xDB ∷ 0x06 ∷ 0x5A ∷ 0xC7 ∷ 0xAF ∷ 0xDF ∷ 0xA4 ∷ 0xCC ∷ 0 ∷ 0xB0 ∷ 0 ∷ 2 ∷ 7 ∷ 8 ∷ 9
      ∷ [])
    ∷ []

read_packet-IsSameRead_example : IsSameRead (read_packet split_frame) (read_packet whole_frame)
read_packet-IsSameRead_example = read_packet-IsSameRead split_frame whole_frame (refl, tt) tt refl

read_packet-frame_example :
    Agrees
      (read_packet split_frame)
      (some (record { error = no_error; id = 0xB0; payload = 7 ∷ 8 ∷ [] }, 9 ∷ []))
unfolding be_bytes
read_packet-frame_example =
    read_packet-frame split_frame (refl, tt) (1 ∷ 2 ∷ []) 0xB0 (7 ∷ 8 ∷ []) (9 ∷ [])
      (apart 1 0xDB refl, (apart 2 0xDB refl, tt)) (omega arith) (omega arith) (omega arith) refl

abbrev stray_frame : Incoming
stray_frame = got (0xDB ∷ (frame 0xB0 (7 ∷ []) ++ [])) ∷ []

read_packet-stray_example : read_packet stray_frame ≡ none
unfolding be_bytes
read_packet-stray_example =
    read_packet-stray stray_frame tt [] 0xB0 (7 ∷ []) [] tt
      (
        apart 0 0xDB refl,
        (apart 0xB0 0xDB refl, (apart 0 0xDB refl, (apart 1 0xDB refl, (apart 7 0xDB refl, tt)))),
      )
      tt refl

abbrev slow_line : Outgoing
slow_line = record {
  write_buffer = [];
  sent = [];
  schedule = took 3 ∷ refused no_error ∷ took 20 ∷ [];
}

abbrev full_line : Outgoing
full_line = record { write_buffer = []; sent = frame 0xB0 (7 ∷ []); schedule = [] }

write_packet-Flushed_example : Flushed [] (frame 0xB0 (7 ∷ [])) no_error full_line
unfolding write_packet write flush flush_loop be_bytes
write_packet-Flushed_example =
    write_packet-Flushed slow_line 0xB0 (7 ∷ []) refl (omega arith) {e = no_error} {s' = full_line}
      refl
