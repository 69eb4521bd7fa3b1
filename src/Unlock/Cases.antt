-- ===== src/Unlock/Cases.antt =====
-- The ways through OnPacketReceived and through one turn of a stream's loop.
use pcbu_desktop.Base.{
  ℕ, ◌≡◌, refl, ◌⊎◌, inl, inr, Bool, true, false, some, ◌==◌, eq→==, Bool-cases, Bytes, arith,
}
use pcbu_desktop.Device.{PairedDevice}
use pcbu_desktop.Packet.{PacketError, no_error, is_error}
use pcbu_desktop.Packet
use pcbu_desktop.Unlock.{
  is_nothing, is_requested, ConnectionInfo, Codec, Connection, packet_id_device_id,
  packet_id_unlock_response, info_or_new, update,
}
use pcbu_desktop.Unlock.Handlers.{on_response_received, on_device_id, on_packet_received}
use pcbu_desktop.Unlock.Flow.{begin_flow, end_flow}

-- The connection with an entry for the stream, as the handlers find it.
abbrev pub seen : Connection → ℕ → Connection
seen c stream = record c {
  connections = update c.connections stream (some (info_or_new (c.connections stream)));
}

pub update_self {ℓ} : {A : Type ℓ} (m : ℕ → A) (stream : ℕ) (v : A) → update m stream v stream ≡ v
update_self m stream v = rw (eq→== stream stream refl)

module _ (codec : Codec) (c : Connection) (stream : ℕ) (packet : Packet.Packet)
    (write_error : PacketError) (server : Bool) where
  abbrev pub info_of : ConnectionInfo
  info_of = info_or_new (c.connections stream)

  -- A packet is ignored, or it is a device ID of a new stream, or an answer to a request.
  pub packet_cases {ℓ} :
      (P : Connection × Bool → Type ℓ)
      → P (seen c stream, true)
      → (is_nothing info_of.state ≡ true
          → P (on_device_id codec (seen c stream) stream packet.payload write_error server))
      → (is_requested info_of.state ≡ true
          → P (
              on_response_received codec
                (seen c stream)
                stream
                packet.payload
                info_of.device
                server))
      → P (on_packet_received codec c stream packet write_error server)
  unfolding on_packet_received
  packet_cases P ignored device_id response = elim (Bool-cases (packet.id == packet_id_device_id)) [
    | inl d ↦ elim (Bool-cases (is_nothing info_of.state)) [
      | inl fresh ↦
          let other : (packet.id == packet_id_unlock_response) ≡ false = ground arith in
          rw (d, fresh, other) (device_id fresh)
      | inr used ↦ rw (d, used) ignored
    ]
    | inr not_d ↦ elim (Bool-cases (packet.id == packet_id_unlock_response)) [
      | inl r ↦ elim (Bool-cases (is_requested info_of.state)) [
        | inl requested ↦ rw (not_d, r, requested) (response requested)
        | inr early ↦ rw (not_d, r, early) ignored
      ]
      | inr not_r ↦ rw (not_d, not_r) ignored
    ]
  ]

-- What a handler leaves alone. The device of the connection changes to that of the stream, or not at all.
abbrev pub Keeps : Connection → PairedDevice → Connection → Type 0
Keeps c device c' =
    (c'.allowed_devices ≡ c.allowed_devices)
    × (c'.unlock_token ≡ c.unlock_token)
    × ((c'.paired_device ≡ c.paired_device) ⊎ (c'.paired_device ≡ device))

module _ (codec : Codec) (c : Connection) (stream : ℕ) where
  pub on_device_id-Keeps :
      (payload : Bytes) (write_error : PacketError) (server : Bool) (device : PairedDevice)
      → Keeps c device (on_device_id codec c stream payload write_error server).0
  unfolding on_device_id
  on_device_id-Keeps payload write_error server device = ground arith

  pub on_response_received-Keeps :
      (payload : Bytes) (device : PairedDevice) (server : Bool)
      → Keeps c device (on_response_received codec c stream payload device server).0
  unfolding on_response_received
  on_response_received-Keeps payload device server = ground arith

module _ (codec : Codec) (c : Connection) (stream : ℕ) where
  pub on_packet_received-Keeps :
      (packet : Packet.Packet) (write_error : PacketError) (server : Bool)
      → Keeps c
          (info_or_new (c.connections stream)).device
          (on_packet_received codec c stream packet write_error server).0
  on_packet_received-Keeps packet write_error server =
      let device = (info_or_new (c.connections stream)).device in
      packet_cases codec c stream packet write_error server (λ r. Keeps c device r.0)
        (refl, refl, inl refl)
        (λ fresh.
          on_device_id-Keeps codec (seen c stream) stream packet.payload write_error server device)
        (λ requested.
          on_response_received-Keeps codec (seen c stream) stream packet.payload device server)

  pub begin_flow-Keeps :
      (server : Bool) (write_error : PacketError) (device : PairedDevice)
      → Keeps c device (begin_flow codec c stream server write_error).0
  unfolding begin_flow
  begin_flow-Keeps server write_error device = ground arith

  pub end_flow-Keeps :
      (e : PacketError) (server : Bool) (device : PairedDevice)
      → Keeps c device (end_flow c stream e server)
  unfolding end_flow
  end_flow-Keeps e server device = ground arith
