-- ===== src/Unlock/Strangers.antt =====
-- What a peer that has not answered properly can do to a connection.
use pcbu_desktop.Base.{ℕ, ◌≡◌, refl, true, false, Bytes, arith}
use pcbu_desktop.Packet.{PacketError}
use pcbu_desktop.Packet
use pcbu_desktop.Unlock.{is_requested, Codec, Connection, info_or_new, handle_unverified_error}
use pcbu_desktop.Unlock.Handlers.{on_device_id, on_packet_received}
use pcbu_desktop.Unlock.Cases.{seen, packet_cases}

-- The shared results of a connection stay as they are.
abbrev pub SameResult : Connection → Connection → Type 0
SameResult c d =
    (d.unlock_state ≡ c.unlock_state)
    × (d.paired_device ≡ c.paired_device)
    × (d.response_data ≡ c.response_data)

module _ (codec : Codec) (c : Connection) (stream : ℕ) where
  on_device_id-SameResult :
      (payload : Bytes) (write_error : PacketError)
      → SameResult c (on_device_id codec c stream payload write_error true).0
  unfolding on_device_id handle_unverified_error
  on_device_id-SameResult payload write_error = ground arith

module _ (codec : Codec) (c : Connection) (stream : ℕ) where
  -- On a connection that serves phones, no packet of a stream without a request changes the state, the
  -- device or the data that the connection reports, whatever the packet holds and however the write of a
  -- request ends.
  pub on_packet_received-SameResult :
      (packet : Packet.Packet) (write_error : PacketError)
      → is_requested (info_or_new (c.connections stream)).state ≡ false
      → SameResult c (on_packet_received codec c stream packet write_error true).0
  on_packet_received-SameResult packet write_error idle =
      packet_cases codec c stream packet write_error true (λ r. SameResult c r.0) (refl, refl, refl)
        (λ fresh. on_device_id-SameResult codec (seen c stream) stream packet.payload write_error)
        (λ requested. absurd cc)
