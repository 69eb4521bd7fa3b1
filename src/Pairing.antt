-- ===== src/Pairing.antt =====
-- Pairing a phone: common/src/connection/pairing/PairingServer.cpp and the pairing packets of
-- common/src/connection/Packets.h.
--
-- What the machine answers (its identifier, its names, its random texts, SHA-256) is a record of values
-- that one run of the handler uses. JSON is the interface of the storage; where the library throws, the
-- handler's catch clause runs. A text that is reported is the key of I18n's message, or the text of the
-- library's exception.
pub mod Handling
pub mod Prepared
pub mod Stored
pub mod Opens
mod Tests
use pcbu_desktop.Base.{
  ℕ, ◌+◌, Bool, true, false, not, ◌&&◌, ◌||◌, List, [], ◌∷◌, ◌++◌, Option, none, some, map,
  if◌then◌else◌, Bytes, codes, is_empty,
}
use pcbu_desktop.Packet.{
  PacketError, timeout, unsupported_version, peer_unavailable, is_error, Incoming, read_packet,
  Outgoing, write_packet,
}
use pcbu_desktop.Device.{PairingMethod, cloud, method_to_string, PairedDevice}
use pcbu_desktop.Crypt.{
  PacketCryptResult, ok, invalid_timestamp, packet_error, other_error, CryptPacket, OpenSsl,
  HexCoder, Randoms, encrypt_aes_packet, decrypt_aes_packet, encrypt_aes_text,
}
use pcbu_desktop.Storage.{JsonLib, Storage, Disk, add_device, get_text, get_port}
use pcbu_desktop.Version.{Comparison, same, compare_version, pairing_protocol_version}

pub record PacketPairInit : Type 0 where
  pub proto_version : Bytes
  pub device_uuid : Bytes
  pub device_name : Bytes
  pub ip_address : Bytes
  pub tcp_port : ℕ
  pub udp_port : ℕ
  pub udp_manual_port : ℕ
  pub cloud_token : Bytes

-- `PacketPairInit()` with its version.
abbrev pub new_init : Bytes → PacketPairInit
new_init version = record {
  proto_version = version;
  device_uuid = [];
  device_name = [];
  ip_address = [];
  tcp_port = 0;
  udp_port = 0;
  udp_manual_port = 0;
  cloud_token = [];
}

pub record PairResponseData : Type 0 where
  pub pairing_method : PairingMethod
  pub device_id : Bytes
  pub device_name : Bytes
  pub device_os : Bytes
  pub unlock_server_port : ℕ
  pub mac_addresses : List Bytes
  pub user_name : Bytes
  pub password_key : Bytes

-- `PairingMethod{}` is TCP.
abbrev pub empty_response : PairResponseData
empty_response = record {
  pairing_method = PairingMethod.tcp;
  device_id = [];
  device_name = [];
  device_os = [];
  unlock_server_port = 0;
  mac_addresses = [];
  user_name = [];
  password_key = [];
}

pub record PairingUiData : Type 0 where
  pub user_name : Bytes
  pub password : Bytes
  pub enc_key : Bytes
  pub method : PairingMethod
  pub bt_address : Bytes

-- `seal` and `reply` are the random bytes of the two encryptions, `now` the clock at the read, and `later`
-- the one at the write. `thrown` is the text of an exception of the JSON library.
pub record Machine : Type 0 where
  pub machine_id : Bytes
  pub host_name : Bytes
  pub operating_system : Bytes
  pub unlock_server_port : ℕ
  pub mac_addresses : List Bytes
  pub sha256 : Bytes → Bytes
  pub fallback_uuid : Bytes
  pub password_key : Bytes
  pub seal : Randoms
  pub reply : Randoms
  pub now : ℕ
  pub later : ℕ
  pub thrown : Bytes

pub data Report : Type 0 where
  succeeded : Report
  failed : Bytes → Report

-- The server, what it told its callbacks, the last first, the paired devices, and the sending half of the stream.
pub record Pairing : Type 0 where
  pub is_running : Bool
  pub ui : PairingUiData
  pub reports : List Report
  pub storage : Storage
  pub out : Outgoing

unfoldable pub start : Pairing → PairingUiData → Pairing
start p ui = record p { ui = ui; is_running = true }

unfoldable pub report_success : Pairing → Pairing
report_success p = if not p.is_running then p else record p { reports = succeeded ∷ p.reports }

unfoldable pub report_error : Pairing → Bytes → Pairing
report_error p message =
    if not p.is_running then p else record p { reports = failed message ∷ p.reports }

abbrev pub is_cloud : PairingMethod → Bool
is_cloud cloud = true
is_cloud _ = false

-- What the first lines of HandleClient report for a packet that is not there.
unfoldable pub read_failure : Bool → PacketCryptResult → PacketError → Option Bytes
read_failure from_cloud invalid_timestamp e = some (codes "error_aes_time_mismatch")
read_failure from_cloud packet_error unsupported_version = some (codes "error_protocol_mismatch")
read_failure from_cloud packet_error timeout = some (codes "error_pairing_timeout")
read_failure from_cloud packet_error peer_unavailable = some (codes "error_pairing_timeout")
read_failure from_cloud _ _ = if from_cloud then some (codes "error_cloud_pairing") else none

abbrev pub is_same : Comparison → Bool
is_same same = true
is_same _ = false

module _ {J : Type 0} (lib : JsonLib J) where
  -- The inner `try` of PacketPairInit::FromJson: the first field that throws leaves it and the later ones.
  unfoldable pub init_fields : J → PacketPairInit → PacketPairInit
  unfolding get_text get_port
  init_fields json p = elim (get_text lib json (codes "deviceUUID")) [
    | none ↦ p
    | some uuid ↦ elim (get_text lib json (codes "deviceName")) [
      | none ↦ record p { device_uuid = uuid }
      | some name ↦ elim (get_text lib json (codes "ipAddress")) [
        | none ↦ record p { device_uuid = uuid; device_name = name }
        | some ip ↦ elim (get_port lib json (codes "tcpPort")) [
          | none ↦ record p { device_uuid = uuid; device_name = name; ip_address = ip }
          | some tcp ↦ elim (get_port lib json (codes "udpPort")) [
            | none ↦ record p {
              device_uuid = uuid;
              device_name = name;
              ip_address = ip;
              tcp_port = tcp;
            }
            | some udp ↦ elim (get_port lib json (codes "udpManualPort")) [
              | none ↦ record p {
                device_uuid = uuid;
                device_name = name;
                ip_address = ip;
                tcp_port = tcp;
                udp_port = udp;
              }
              | some manual ↦ elim (get_text lib json (codes "cloudToken")) [
                | none ↦ record p {
                  device_uuid = uuid;
                  device_name = name;
                  ip_address = ip;
                  tcp_port = tcp;
                  udp_port = udp;
                  udp_manual_port = manual;
                }
                | some token ↦ record p {
                  device_uuid = uuid;
                  device_name = name;
                  ip_address = ip;
                  tcp_port = tcp;
                  udp_port = udp;
                  udp_manual_port = manual;
                  cloud_token = token;
                }
              ]
            ]
          ]
        ]
      ]
    ]
  ]

  unfoldable pub init_from_json : Bytes → Option PacketPairInit
  unfolding init_fields get_text
  init_from_json text = elim (lib.parse text) [
    | none ↦ none
    | some json ↦ elim (get_text lib json (codes "protoVersion")) [
      | none ↦ none
      | some version ↦ some (init_fields json (new_init version))
    ]
  ]

  unfoldable pub response_data_json : PairResponseData → J
  unfolding method_to_string
  response_data_json d = lib.object (
      (codes "pairingMethod", lib.text (method_to_string d.pairing_method))
      ∷ (codes "deviceId", lib.text d.device_id)
      ∷ (codes "deviceName", lib.text d.device_name)
      ∷ (codes "deviceOS", lib.text d.device_os)
      ∷ (codes "unlockServerPort", lib.number d.unlock_server_port)
      ∷ (codes "macAddresses", lib.array (map lib.text d.mac_addresses))
      ∷ (codes "userName", lib.text d.user_name)
      ∷ (codes "passwordKey", lib.text d.password_key)
      ∷ [])

  unfoldable pub response_json : Bytes → PairResponseData → J
  unfolding response_data_json
  response_json error data_fields =
      lib.object
        ((codes "errMsg", lib.text error) ∷ (codes "data", response_data_json data_fields) ∷ [])
