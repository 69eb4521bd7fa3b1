-- ===== src/Unlock.antt =====
-- The unlock protocol: common/src/connection/unlock/BaseUnlockConnection.cpp, with the states of
-- common/src/handler/UnlockState.h and the packets of common/src/connection/Packets.h.
--
-- A stream is known by a number in place of its address. A handler of one packet is one step: a stream's
-- entry in `m_Connections` is touched by the thread of that stream alone, and each path of a handler
-- makes at most one access to the shared unlock state, which is atomic or under the state mutex.
-- The answer of WritePacket is an argument of the step that writes. JSON and the encrypted
-- packets are the interface `Codec`.
pub mod State
pub mod Handlers
pub mod Flow
pub mod Cases
pub mod Authentic
pub mod Reach
pub mod Progress
pub mod Exchange
pub mod Strangers
mod Tests
use pcbu_desktop.Base.{
  ℕ, Bool, true, false, not, ◌&&◌, ◌||◌, List, [], ◌∷◌, Option, none, some, ◌==◌, if◌then◌else◌,
  Bytes, codes, str_eq, is_empty,
}
use pcbu_desktop.Device.{PairedDevice, empty_device}
use pcbu_desktop.Packet.{PacketError, no_error, is_error}
use pcbu_desktop.Packet
use State.{
  UnlockState, UnlockPhase, unknown, success, canceled, connect_error, time_error, data_error,
  not_paired_error, app_error, protocol_error, cloud_phone_unreachable, unk_error, is_unknown,
  phone_unlocking,
}

pub data ConnectionState : Type 0 where
  nothing has_device_id has_unlock_request has_unlock_response : ConnectionState

abbrev pub is_nothing : ConnectionState → Bool
is_nothing nothing = true
is_nothing _ = false

abbrev pub is_requested : ConnectionState → Bool
is_requested has_unlock_request = true
is_requested _ = false

pub record ConnectionInfo : Type 0 where
  pub state : ConnectionState
  pub device : PairedDevice

pub record UnlockResponse : Type 0 where
  pub error : Bytes
  pub enc_data : Bytes

pub record ResponseData : Type 0 where
  pub unlock_token : Bytes
  pub password_key : Bytes

pub data Decrypted : Type 0 where
  ok : Bytes → Decrypted
  invalid_timestamp other_error : Decrypted

-- CryptUtils' packets, hex texts, and the FromJson functions of Packets.h, which rest on a JSON library:
-- `none` where they fail. `encrypt` gives the encrypted request data.
pub record Codec : Type 0 where
  pub encrypt : Bytes → Bytes → Option Bytes
  pub decrypt : Bytes → Bytes → Decrypted
  pub from_hex : Bytes → Bytes
  pub request_data : Bytes → Bytes → Bytes → Bytes
  pub response_from_json : Bytes → Option UnlockResponse
  pub data_from_json : Bytes → Option ResponseData

pub record Connection : Type 0 where
  pub phase : UnlockPhase
  pub unlock_state : UnlockState
  pub paired_device : PairedDevice
  pub response_data : ResponseData
  pub connections : ℕ → Option ConnectionInfo
  pub allowed_devices : List PairedDevice
  pub auth_user : Bytes
  pub auth_program : Bytes
  pub unlock_token : Bytes

abbrev pub packet_id_device_id : ℕ
packet_id_device_id = 0xB0

abbrev pub packet_id_unlock_response : ℕ
packet_id_unlock_response = 0xB2

-- `m_Connections[&stream]`: a missing entry is made.
abbrev pub info_or_new : Option ConnectionInfo → ConnectionInfo
info_or_new none = record { state = nothing; device = empty_device }
info_or_new (some i) = i

abbrev pub update {ℓ} : {A : Type ℓ} → (ℕ → A) → ℕ → A → ℕ → A
update m k v j = if j == k then v else m j

unfoldable pub map_packet_error : PacketError → UnlockState → UnlockState
map_packet_error PacketError.closed_connection fallback = connect_error
map_packet_error PacketError.timeout fallback = UnlockState.timeout
map_packet_error PacketError.unsupported_version fallback = protocol_error
map_packet_error PacketError.peer_unavailable fallback = cloud_phone_unreachable
map_packet_error _ fallback = fallback

unfoldable pub find_allowed_device : List PairedDevice → Bytes → Option PairedDevice
find_allowed_device [] id = none
find_allowed_device (d ∷ ds) id = if str_eq d.id id then some d else find_allowed_device ds id

-- The new connection, and whether the stream is read on.
unfoldable pub handle_unverified_error : Connection → UnlockState → Bool → Connection × Bool
handle_unverified_error c state true = (c, false)
handle_unverified_error c state false = (record c { unlock_state = state }, true)

unfoldable pub error_state : Bytes → UnlockState
unfolding str_eq
error_state error =
    if str_eq error (codes "CANCEL")
    then canceled
    else if str_eq error (codes "NOT_PAIRED")
    then not_paired_error
    else if str_eq error (codes "APP_ERROR")
    then app_error
    else if str_eq error (codes "TIME_ERROR")
    then time_error
    else if str_eq error (codes "DATA_ERROR")
    then data_error
    else if str_eq error (codes "PROTOCOL_ERROR")
    then protocol_error
    else unk_error

abbrev pub answered : Option ConnectionInfo → Option ConnectionInfo
answered none = none
answered (some i) = some (record i { state = has_unlock_response })
