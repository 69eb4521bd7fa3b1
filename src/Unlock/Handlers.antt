-- ===== src/Unlock/Handlers.antt =====
-- What a packet does: SendUnlockRequest, OnResponseReceived and OnPacketReceived of
-- common/src/connection/unlock/BaseUnlockConnection.cpp.
use pcbu_desktop.Base.{
  ℕ, Bool, true, not, ◌&&◌, Option, none, some, ◌==◌, if◌then◌else◌, Bytes, str_eq, is_empty,
}
use pcbu_desktop.Device.{PairedDevice}
use pcbu_desktop.Packet.{PacketError, no_error, is_error}
use pcbu_desktop.Packet
use pcbu_desktop.Unlock.State.{success, time_error, data_error, unk_error, is_unknown}
use pcbu_desktop.Unlock.{
  has_unlock_request, is_nothing, is_requested, UnlockResponse, ResponseData, Decrypted, ok,
  invalid_timestamp, other_error, Codec, Connection, packet_id_device_id, packet_id_unlock_response,
  info_or_new, update, map_packet_error, find_allowed_device, handle_unverified_error, error_state,
  answered,
}

module _ (codec : Codec) where
  open codec use {encrypt, decrypt, from_hex, request_data, response_from_json, data_from_json}

  -- The error of SendUnlockRequest, where `write_error` is the answer of WritePacket.
  unfoldable pub send_unlock_request : Connection → PairedDevice → PacketError → PacketError
  send_unlock_request c device write_error =
      elim (encrypt (request_data c.auth_user c.auth_program c.unlock_token)
        device.encryption_key) [ none ↦ PacketError.unknown | some _ ↦ write_error ]

  -- The last part of OnResponseReceived, under the state mutex.
  unfoldable pub accept_response : Connection → ℕ → PairedDevice → ResponseData → Connection × Bool
  accept_response c stream device answer = if not (is_unknown c.unlock_state) then (c, true) else (
    record c {
      paired_device = device;
      response_data = answer;
      unlock_state = success;
      connections = update c.connections stream (answered (c.connections stream));
    },
    true,
  )

  unfoldable pub check_data :
      Connection → ℕ → PairedDevice → Option ResponseData → Bool → Connection × Bool
  unfolding accept_response handle_unverified_error
  check_data c stream device none server = (record c { unlock_state = data_error }, true)
  check_data c stream device (some answer) server =
      if not (str_eq answer.unlock_token c.unlock_token)
      then handle_unverified_error c unk_error server
      else accept_response c stream device answer

  unfoldable pub check_decrypted :
      Connection → ℕ → PairedDevice → Decrypted → Bool → Connection × Bool
  unfolding check_data handle_unverified_error
  check_decrypted c stream device (ok bytes) server =
      check_data c stream device (data_from_json bytes) server
  check_decrypted c stream device invalid_timestamp server =
      (record c { unlock_state = time_error }, true)
  check_decrypted c stream device other_error server = handle_unverified_error c data_error server

  unfoldable pub check_response :
      Connection → ℕ → PairedDevice → Option UnlockResponse → Bool → Connection × Bool
  unfolding check_decrypted handle_unverified_error
  check_response c stream device none server = handle_unverified_error c data_error server
  check_response c stream device (some r) server =
      if not (is_empty r.error)
      then (record c { unlock_state = error_state r.error }, true)
      else check_decrypted c stream device (decrypt (from_hex r.enc_data) device.encryption_key)
          server

  unfoldable pub on_response_received :
      Connection → ℕ → Bytes → PairedDevice → Bool → Connection × Bool
  unfolding check_response
  on_response_received c stream payload device server =
      check_response c stream device (response_from_json payload) server

  -- The case PACKET_ID_DEVICE_ID.
  unfoldable pub on_device_id : Connection → ℕ → Bytes → PacketError → Bool → Connection × Bool
  unfolding find_allowed_device handle_unverified_error send_unlock_request map_packet_error
  on_device_id c stream payload write_error server =
      elim (find_allowed_device c.allowed_devices payload) [
        | none ↦ handle_unverified_error c data_error server
        | some device ↦
            let e = send_unlock_request c device write_error in
            if is_error e
            then handle_unverified_error c (map_packet_error e unk_error) server
            else (
              record c {
                connections =
                    update c.connections stream
                      (some (record { state = has_unlock_request; device = device }));
              },
              true,
            )
      ]

  unfoldable pub on_packet_received :
      Connection → ℕ → Packet.Packet → PacketError → Bool → Connection × Bool
  unfolding on_device_id on_response_received
  on_packet_received c stream packet write_error server =
      let info = info_or_new (c.connections stream) in
      let seen = record c { connections = update c.connections stream (some info) } in
      if packet.id == packet_id_device_id && not (is_nothing info.state)
      then (seen, true)
      else if packet.id == packet_id_unlock_response && not (is_requested info.state)
      then (seen, true)
      else if packet.id == packet_id_device_id
      then on_device_id seen stream packet.payload write_error server
      else if packet.id == packet_id_unlock_response
      then on_response_received seen stream packet.payload info.device server
      else (seen, true)
