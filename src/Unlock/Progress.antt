-- ===== src/Unlock/Progress.antt =====
-- The steps of a proper exchange.
use pcbu_desktop.Base.{ℕ, ◌≡◌, refl, Bool, true, [], some, eq→==, Bytes, str_eq, str_eq_iff}
use pcbu_desktop.Device.{PairedDevice}
use pcbu_desktop.Packet.{PacketError, no_error, is_error}
use pcbu_desktop.Packet
use pcbu_desktop.Unlock.State.{success, is_unknown}
use pcbu_desktop.Unlock.{
  has_unlock_request, is_nothing, ConnectionInfo, UnlockResponse, ResponseData, ok, Codec,
  Connection, packet_id_device_id, packet_id_unlock_response, info_or_new, update,
  find_allowed_device, answered,
}
use pcbu_desktop.Unlock.Handlers.{
  send_unlock_request, accept_response, check_data, check_decrypted, check_response,
  on_response_received, on_device_id, on_packet_received,
}
use pcbu_desktop.Unlock.Cases.{seen}

abbrev pub packet_of : ℕ → Bytes → Packet.Packet
packet_of id payload = record { error = no_error; id = id; payload = payload }

module _ (codec : Codec) where
  -- A device ID of an allowed device, on a stream that has none yet, is answered by a request.
  pub on_packet_received_device_id :
      (c : Connection) (stream : ℕ) (id : Bytes) (device : PairedDevice) (write_error : PacketError)
      (server : Bool)
      → is_nothing (info_or_new (c.connections stream)).state ≡ true
      → find_allowed_device c.allowed_devices id ≡ some device
      → send_unlock_request codec c device write_error ≡ no_error
      → on_packet_received codec c stream (packet_of packet_id_device_id id) write_error server ≡ (
        record c {
          connections =
              update
                (seen c stream).connections
                stream
                (some (record { state = has_unlock_request; device = device }));
        },
        true,
      )
  unfolding on_packet_received on_device_id
  on_packet_received_device_id c stream id device write_error server fresh found sent =
      rw (fresh)
        (rw (found, on_device_id) (unfold send_unlock_request in rw (sent, send_unlock_request)))

  module _ (c : Connection) (stream : ℕ) (payload : Bytes) (r : UnlockResponse) (plain : Bytes)
      (answer : ResponseData) (i : ConnectionInfo) (server : Bool) (write_error : PacketError) where
    -- An answer without an error that decrypts under the stream's device key to data with the
    -- connection's token decides an undecided connection.
    pub on_packet_received_answer :
        c.connections stream ≡ some i
        → i.state ≡ has_unlock_request
        → is_unknown c.unlock_state ≡ true
        → codec.response_from_json payload ≡ some r
        → r.error ≡ []
        → codec.decrypt (codec.from_hex r.enc_data) i.device.encryption_key ≡ ok plain
        → codec.data_from_json plain ≡ some answer
        → answer.unlock_token ≡ c.unlock_token
        → on_packet_received codec c stream
            (packet_of packet_id_unlock_response payload)
            write_error
            server
          ≡ (
            record c {
              paired_device = i.device;
              response_data = answer;
              unlock_state = success;
              connections =
                  update
                    (seen c stream).connections
                    stream
                    (answered ((seen c stream).connections stream));
            },
            true,
          )
    unfolding on_packet_received on_response_received check_response check_decrypted check_data
        accept_response
    on_packet_received_answer entry requested undecided parsed fine decrypts parses token =
        let same : str_eq answer.unlock_token c.unlock_token ≡ true =
          (str_eq_iff answer.unlock_token c.unlock_token).1 token in
        rw (entry) (
          rw (requested) (
            rw (parsed) (
              rw (fine)
                (rw (decrypts) (rw (parses) (rw (same, undecided, eq→== stream stream refl)))))))
