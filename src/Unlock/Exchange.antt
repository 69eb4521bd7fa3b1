-- ===== src/Unlock/Exchange.antt =====
-- The whole exchange of a connection that serves phones.
use pcbu_desktop.Base.{ℕ, ◌≡◌, refl, true, false, [], ◌∷◌, some, eq→==, Bytes}
use pcbu_desktop.Device.{PairedDevice, empty_device}
use pcbu_desktop.Packet.{PacketError, no_error, is_error}
use pcbu_desktop.Packet
use pcbu_desktop.Unlock.State.{success, is_unknown, phone_unlocking}
use pcbu_desktop.Unlock.{
  nothing, has_unlock_request, UnlockResponse, ResponseData, ok, Codec, Connection,
  packet_id_device_id, packet_id_unlock_response, update, find_allowed_device,
}
use pcbu_desktop.Unlock.Handlers.{send_unlock_request, on_packet_received}
use pcbu_desktop.Unlock.Flow.{
  System, connects, receives, begin_flow, on_connect, on_read, step, run,
}
use pcbu_desktop.Unlock.Cases.{seen, update_self}
use pcbu_desktop.Unlock.Progress.{
  packet_of, on_packet_received_device_id, on_packet_received_answer,
}

module _ (codec : Codec) where
  step_read_on :
      (s : System) (stream : ℕ) (packet : Packet.Packet) (write_error : PacketError)
      (c : Connection)
      → s.running stream ≡ true
      → is_error packet.error ≡ false
      → on_packet_received codec s.connection stream packet write_error s.server ≡ (c, true)
      → step codec s (receives stream packet write_error) ≡ record s { connection = c }
  unfolding step on_read
  step_read_on s stream packet write_error c runs fine e = rw (runs, on_read) (rw (fine) (rw e))

  send_unlock_request_sent :
      (c : Connection) (device : PairedDevice) (encrypted : Bytes)
      → codec.encrypt
          (codec.request_data c.auth_user c.auth_program c.unlock_token)
          device.encryption_key
        ≡ some encrypted
      → send_unlock_request codec c device no_error ≡ no_error
  unfolding send_unlock_request
  send_unlock_request_sent c device encrypted e = rw (e, send_unlock_request) refl

  abbrev pub with_stream : System → ℕ → System
  with_stream s stream = record s {
    connection = record s.connection {
      phase = phone_unlocking;
      connections =
          update s.connection.connections stream
            (some (record { state = nothing; device = empty_device }));
    };
    running = update s.running stream true;
  }

  step_serve :
      (s : System) (stream : ℕ)
      → s.server ≡ true
      → s.running stream ≡ false
      → step codec s (connects stream no_error) ≡ with_stream s stream
  unfolding step on_connect begin_flow
  step_serve s stream server idle = rw (idle, on_connect) (rw (server, begin_flow) refl)

  module _ (s : System) (stream : ℕ) (id payload encrypted plain : Bytes) (device : PairedDevice)
      (r : UnlockResponse) (answer : ResponseData) where
    -- On an undecided server a new stream that names an allowed device and then answers the
    -- request properly, with no error, with data that decrypts under that device's key and
    -- carries the connection's token, is an unlock by that device with that data. The request can be encrypted and both reads and the write work.
    pub run-exchange :
        s.server ≡ true
        → s.running stream ≡ false
        → is_unknown s.connection.unlock_state ≡ true
        → find_allowed_device s.connection.allowed_devices id ≡ some device
        → codec.encrypt
            (codec.request_data s.connection.auth_user s.connection.auth_program
              s.connection.unlock_token)
            device.encryption_key
          ≡ some encrypted
        → codec.response_from_json payload ≡ some r
        → r.error ≡ []
        → codec.decrypt (codec.from_hex r.enc_data) device.encryption_key ≡ ok plain
        → codec.data_from_json plain ≡ some answer
        → answer.unlock_token ≡ s.connection.unlock_token
        → let c =
            (run codec s (
              connects stream no_error
              ∷ receives stream (packet_of packet_id_device_id id) no_error
              ∷ receives stream (packet_of packet_id_unlock_response payload) no_error
              ∷ [])).connection in
          (c.unlock_state ≡ success) × (c.paired_device ≡ device) × (c.response_data ≡ answer)
    unfolding run
    run-exchange server idle undecided found encrypts parsed fine decrypts parses token =
        let opened = with_stream s stream in
        let c1 = opened.connection in
        let asked = record c1 {
          connections =
              update (seen c1 stream).connections stream
                (some (record { state = has_unlock_request; device = device }));
        } in
        let mine = eq→== stream stream refl in
        let sent : send_unlock_request codec c1 device no_error ≡ no_error =
          send_unlock_request_sent c1 device encrypted encrypts in
        let first =
          step_read_on opened stream (packet_of packet_id_device_id id) no_error asked
            (update_self s.running stream true) refl
            (on_packet_received_device_id codec c1 stream id device no_error s.server (rw mine)
              found sent) in
        let second =
          step_read_on (record opened { connection = asked }) stream
            (packet_of packet_id_unlock_response payload) no_error _
            (update_self s.running stream true) refl
            (on_packet_received_answer codec asked stream payload r plain answer
              (record { state = has_unlock_request; device = device }) s.server no_error (rw mine)
              refl undecided parsed fine decrypts parses token) in
        rw (step_serve s stream server idle) (rw (first) (rw (second) (refl, refl, refl)))
