-- ===== src/Socket/Tests.antt =====
-- A peer that sends half a header and is silent from then on.
use pcbu_desktop.Base.{◌≢◌, refl, inl, inr, true, false, [], ◌∷◌, none, arith}
use pcbu_desktop.Packet.{read_packet}
use pcbu_desktop.Socket.{SocketStream, Turn, received, error, try_again, arrivals_of}
use pcbu_desktop.Socket.Idle.{AreDue, read_packet-IsOver}

abbrev stream : SocketStream
stream = record { has_flag = true; idle_timeout = 5; last_activity = 0 }

abbrev half_header : Turn
half_header = record {
  is_running = true;
  waited_out = false;
  result = received 0xDB (6 ∷ []);
  now = 2000000000;
}

abbrev silent : Turn
silent = record { is_running = true; waited_out = true; result = error try_again; now = 8000000000 }

read_packet-IsOver_example :
    (read_packet (arrivals_of stream (half_header ∷ silent ∷ [])) ≢ none)
    × AreDue true 5 0 (half_header ∷ silent ∷ []) (arrivals_of stream (half_header ∷ silent ∷ []))
read_packet-IsOver_example =
    read_packet-IsOver stream (half_header ∷ silent ∷ [])
      (inr (inr (inr (inl (inl refl, (omega arith, omega arith))))))
