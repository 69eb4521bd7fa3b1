-- ===== src/Pairing/Handling.antt =====
-- HandleClient of common/src/connection/pairing/PairingServer.cpp, with its reads and writes.
use pcbu_desktop.Base.{
  ℕ, Bool, true, false, not, [], ◌++◌, Option, none, some, if◌then◌else◌, Bytes, codes, is_empty,
}
use pcbu_desktop.Packet.{is_error, Packet, Incoming, read_packet, Outgoing, write_packet}
use pcbu_desktop.Device.{PairedDevice}
use pcbu_desktop.Crypt.{
  PacketCryptResult, ok, packet_error, CryptPacket, OpenSsl, HexCoder, encrypt_aes_packet,
  decrypt_aes_packet, encrypt_aes_text,
}
use pcbu_desktop.Storage.{JsonLib, Disk, add_device}
use pcbu_desktop.Version.{compare_version, pairing_protocol_version}
use pcbu_desktop.Pairing.{
  PacketPairInit, PairResponseData, empty_response, PairingUiData, Machine, Pairing, report_success,
  report_error, is_cloud, read_failure, is_same, init_from_json, response_json,
}

abbrev pub packet_id_pair_response : ℕ
packet_id_pair_response = 0x51

-- `refused` is an exception, with its text; `ready` is the device and the text of the response.
pub data Prepared : Type 0 where
  refused : Bytes → Prepared
  ready : PairedDevice → Bytes → Prepared

-- The handler still waits for the stream, or an exception leaves it, or it has returned.
pub data Outcome : Type 0 where
  waiting uncaught : Outcome
  handled : Pairing → Outcome

abbrev pub uuid_or : Bytes → Bytes → Bytes
uuid_or fallback uuid = if is_empty uuid then fallback else uuid

unfoldable pub new_device : Machine → PairingUiData → PacketPairInit → Bytes → PairedDevice
new_device m ui init password_enc = record {
  id = m.sha256 (m.machine_id ++ (uuid_or m.fallback_uuid init.device_uuid ++ ui.user_name));
  pairing_method = ui.method;
  device_name = init.device_name;
  user_name = ui.user_name;
  password_enc = password_enc;
  encryption_key = ui.enc_key;
  ip_address = init.ip_address;
  tcp_port = init.tcp_port;
  udp_port = init.udp_port;
  udp_manual_port = init.udp_manual_port;
  bluetooth_address = ui.bt_address;
  cloud_token = init.cloud_token;
  ssh_servers = [];
}

unfoldable pub response_data : Machine → PairingUiData → PairedDevice → PairResponseData
response_data m ui device = record {
  pairing_method = device.pairing_method;
  device_id = device.id;
  device_name = m.host_name;
  device_os = m.operating_system;
  unlock_server_port = m.unlock_server_port;
  mac_addresses = m.mac_addresses;
  user_name = ui.user_name;
  password_key = m.password_key;
}

-- What ReadEncryptedPacket makes of a packet.
unfoldable pub open_packet :
    OpenSsl → Machine → PairingUiData → Option (Packet × Incoming) → Option (CryptPacket × Incoming)
unfolding decrypt_aes_packet
open_packet ssl m ui none = none
open_packet ssl m ui (some (packet, rest)) =
    if is_error packet.error
    then some (record { result = packet_error; error = packet.error; payload = [] }, rest)
    else some (decrypt_aes_packet ssl m.now packet.payload ui.enc_key, rest)

unfoldable pub read_encrypted_packet :
    OpenSsl → Machine → PairingUiData → Incoming → Option (CryptPacket × Incoming)
unfolding open_packet read_packet
read_encrypted_packet ssl m ui arrivals = open_packet ssl m ui (read_packet arrivals)

abbrev pub is_ok : PacketCryptResult → Bool
is_ok ok = true
is_ok _ = false

unfoldable pub write_encrypted_packet :
    OpenSsl → Machine → PairingUiData → Outgoing → ℕ → Bytes → Option (Bool × Outgoing)
unfolding encrypt_aes_packet write_packet
write_encrypted_packet ssl m ui out id text =
    let sealed = encrypt_aes_packet ssl m.reply m.later text ui.enc_key in
    if not (is_ok sealed.result)
    then some (false, out)
    else elim (write_packet out id sealed.payload) [
      | none ↦ none
      | some (e, after) ↦ some (not (is_error e), after)
    ]

unfoldable pub report_failure : Pairing → Option Bytes → Outcome
unfolding report_error
report_failure p none = handled p
report_failure p (some message) = handled (report_error p message)

module _ {J : Type 0} (lib : JsonLib J) (ssl : OpenSsl) (coder : HexCoder) (m : Machine)
    (disk : Disk) where
  -- The `try` block up to the response.
  unfoldable pub prepare : PairingUiData → Bytes → Prepared
  unfolding init_from_json compare_version pairing_protocol_version encrypt_aes_text new_device
      response_json response_data
  prepare ui plain = elim (init_from_json lib plain) [
    | none ↦ refused (codes "error_pairing_packet_parse")
    | some init ↦
        if not (is_same (compare_version pairing_protocol_version init.proto_version))
        then refused (codes "error_protocol_mismatch")
        else elim (encrypt_aes_text ssl coder m.seal ui.password m.password_key) [
          | none ↦ refused (codes "error_password_encrypt")
          | some password_enc ↦
              let device = new_device m ui init password_enc in
              elim (lib.dump (response_json lib [] (response_data m ui device))) [
                | none ↦ refused m.thrown
                | some text ↦ ready device text
              ]
        ]
  ]

  -- What follows the write of a response.
  unfoldable pub after_response : Pairing → PairedDevice → Option (Bool × Outgoing) → Outcome
  unfolding add_device report_success report_error
  after_response p device none = waiting
  after_response p device (some (true, out)) =
      handled
        (report_success (record p { out = out; storage = add_device lib p.storage disk device }))
  after_response p device (some (false, out)) =
      handled (report_error (record p { out = out }) (codes "error_pairing_failed"))

  -- What follows the write of a refusal.
  unfoldable pub after_refusal : Pairing → Bytes → Option (Bool × Outgoing) → Outcome
  unfolding report_error
  after_refusal p message none = waiting
  after_refusal p message (some (true, out)) = handled (record p { out = out })
  after_refusal p message (some (false, out)) =
      handled (report_error (record p { out = out }) message)

  unfoldable pub respond : Pairing → Prepared → Outcome
  unfolding after_response after_refusal write_encrypted_packet response_json
  respond p (ready device text) =
      after_response p device (write_encrypted_packet ssl m p.ui p.out packet_id_pair_response text)
  respond p (refused message) = elim (lib.dump (response_json lib message empty_response)) [
    | none ↦ uncaught
    | some text ↦
        after_refusal p message
          (write_encrypted_packet ssl m p.ui p.out packet_id_pair_response text)
  ]

  -- What follows the read of the packet.
  unfoldable pub after_read : Pairing → Option (CryptPacket × Incoming) → Outcome
  unfolding read_failure respond prepare report_failure
  after_read p none = waiting
  after_read p (some (packet, rest)) =
      if is_empty packet.payload
      then report_failure p (read_failure (is_cloud p.ui.method) packet.result packet.error)
      else respond p (prepare p.ui packet.payload)

  unfoldable pub handle_client : Pairing → Incoming → Outcome
  unfolding read_encrypted_packet after_read
  handle_client p arrivals = after_read p (read_encrypted_packet ssl m p.ui arrivals)
