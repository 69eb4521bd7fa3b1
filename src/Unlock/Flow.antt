-- ===== src/Unlock/Flow.antt =====
-- PerformAuthFlow of common/src/connection/unlock/BaseUnlockConnection.cpp, for all the streams of one
-- connection object at once: each event is one turn of one stream's loop.
use pcbu_desktop.Base.{ℕ, Bool, true, false, not, ◌||◌, List, [], ◌∷◌, none, some, if◌then◌else◌}
use pcbu_desktop.Device.{empty_device}
use pcbu_desktop.Packet.{PacketError, no_error, is_error}
use pcbu_desktop.Packet
use pcbu_desktop.Unlock.State.{data_error, unk_error, is_unknown, phone_unlocking}
use pcbu_desktop.Unlock.{
  nothing, has_device_id, has_unlock_request, Codec, Connection, update, map_packet_error,
}
use pcbu_desktop.Unlock.Handlers.{send_unlock_request, on_packet_received}

-- The end of PerformAuthFlow, where `e` is the error of the last packet.
unfoldable pub end_flow : Connection → ℕ → PacketError → Bool → Connection
unfolding map_packet_error
end_flow c stream e needs_device_id =
    let closed = record c { connections = update c.connections stream none } in
    if not (is_error e) || not (is_unknown c.unlock_state)
    then closed
    else if needs_device_id
    then closed
    else record closed { unlock_state = map_packet_error e data_error }

-- A connection object: `server` is the `needsDeviceID` that it gives to PerformAuthFlow, and `running`
-- tells which of its streams are in that function.
pub record System : Type 0 where
  pub connection : Connection
  pub server : Bool
  pub running : ℕ → Bool

-- What may happen next: a stream is opened, or a read of a stream returns a packet or an error. The last
-- field is what WritePacket answers, if the step writes.
pub data Event : Type 0 where
  connects : ℕ → PacketError → Event
  receives : ℕ → Packet.Packet → PacketError → Event

abbrev pub closes : System → ℕ → PacketError → Connection → System
closes s stream e c = record s {
  connection = end_flow c stream e s.server;
  running = update s.running stream false;
}

module _ (codec : Codec) where
  -- PerformAuthFlow up to its first read: the new connection, and whether the stream is read.
  unfoldable pub begin_flow : Connection → ℕ → Bool → PacketError → Connection × Bool
  begin_flow c stream true write_error = (
    record c {
      phase = phone_unlocking;
      connections =
          update c.connections stream (some (record { state = nothing; device = empty_device }));
    },
    true,
  )
  begin_flow c stream false write_error =
      let e = send_unlock_request codec c c.paired_device write_error in
      if is_error e
      then (
        record c {
          phase = phone_unlocking;
          connections =
              update c.connections stream
                (some (record { state = has_device_id; device = c.paired_device }));
          unlock_state = map_packet_error e unk_error;
        },
        false,
      )
      else (
        record c {
          phase = phone_unlocking;
          connections =
              update c.connections stream
                (some (record { state = has_unlock_request; device = c.paired_device }));
        },
        true,
      )

  unfoldable pub on_connect : System → ℕ → PacketError → Bool → System
  on_connect s stream write_error true = s
  on_connect s stream write_error false =
      let (c, is_open) = begin_flow s.connection stream s.server write_error in
      if is_open
      then record s { connection = c; running = update s.running stream true }
      else closes s stream no_error c

  unfoldable pub on_read : System → ℕ → Packet.Packet → PacketError → Bool → System
  on_read s stream packet write_error false = s
  on_read s stream packet write_error true =
      if is_error packet.error
      then closes s stream packet.error s.connection
      else let (c, more) =
          on_packet_received codec s.connection stream packet write_error s.server in
        if more then record s { connection = c } else closes s stream no_error c

  unfoldable pub step : System → Event → System
  unfolding on_connect on_read
  step s (connects stream write_error) = on_connect s stream write_error (s.running stream)
  step s (receives stream packet write_error) =
      on_read s stream packet write_error (s.running stream)

  unfoldable pub run : System → List Event → System
  unfolding step
  run s [] = s
  run s (e ∷ es) = run (step s e) es
