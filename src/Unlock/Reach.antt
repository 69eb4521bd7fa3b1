-- ===== src/Unlock/Reach.antt =====
-- Every history of a connection object keeps the evidence of its success.
use pcbu_desktop.Base.{
  ℕ, ◌≡◌, refl, ap, ◌⊎◌, inl, inr, Bool, true, false, not, ◌||◌, List, [], ◌∷◌, none, some,
  if◌then◌else◌, Bool-cases, Option-cases, Bytes,
}
use pcbu_desktop.Device.{PairedDevice}
use pcbu_desktop.Packet.{PacketError, no_error, is_error}
use pcbu_desktop.Packet
use pcbu_desktop.Unlock.State.{unknown, success, data_error, unk_error, is_unknown, phone_unlocking}
use pcbu_desktop.Unlock.{
  is_requested, ConnectionInfo, Codec, Connection, info_or_new, update, map_packet_error,
  find_allowed_device,
}
use pcbu_desktop.Unlock.Handlers.{
  send_unlock_request, on_response_received, on_device_id, on_packet_received,
}
use pcbu_desktop.Unlock.Flow.{
  System, Event, connects, receives, closes, begin_flow, end_flow, on_connect, on_read, step, run,
}
use pcbu_desktop.Unlock.Cases.{
  seen, update_self, packet_cases, Keeps, on_device_id-Keeps, on_response_received-Keeps,
  begin_flow-Keeps, end_flow-Keeps,
}
use pcbu_desktop.Unlock.Authentic.{
  Listed, IsKnown, Evidence, IsAuthentic, IsKnown-info_or_new, IsFailure-map_packet_error,
  find_allowed_device-Listed, IsAuthentic-failure, IsAuthentic-update,
  handle_unverified_error-IsAuthentic, check_response-IsAuthentic,
}

requested-Listed :
    (ds : List PairedDevice) (i : ConnectionInfo)
    → IsKnown ds (some i)
    → is_requested i.state ≡ true
    → Listed i.device ds
requested-Listed ds i (inl e) r = cc
requested-Listed ds i (inr l) r = l

module _ (codec : Codec) where
  on_device_id-IsAuthentic :
      (c : Connection) (stream : ℕ) (payload : Bytes) (write_error : PacketError) (server : Bool)
      → IsAuthentic codec c
      → IsAuthentic codec (on_device_id codec c stream payload write_error server).0
  unfolding on_device_id
  on_device_id-IsAuthentic c stream payload write_error server a =
      elim (Option-cases (find_allowed_device c.allowed_devices payload)) [
        | inl e ↦
            rw (e, on_device_id)
              (handle_unverified_error-IsAuthentic codec c data_error server (refl, refl) a)
        | inr (device, e) ↦
            rw (e, on_device_id)
              (elim (Bool-cases (is_error (send_unlock_request codec c device write_error))) [
                | inl failed ↦ rw failed (
                    handle_unverified_error-IsAuthentic codec c _ server
                      (IsFailure-map_packet_error _ unk_error (refl, refl)) a)
                | inr sent ↦ rw sent (
                    IsAuthentic-update codec c c.phase stream _
                      (inr (find_allowed_device-Listed c.allowed_devices payload e)) a)
              ])
      ]

  seen-IsAuthentic :
      (c : Connection) (stream : ℕ)
      → IsAuthentic codec c
      → IsAuthentic codec (record c {
        connections = update c.connections stream (some (info_or_new (c.connections stream)));
      })
  seen-IsAuthentic c stream a =
      IsAuthentic-update codec c c.phase stream _
        (IsKnown-info_or_new c.allowed_devices (c.connections stream) (a.known stream)) a

  on_packet_received-IsAuthentic :
      (c : Connection) (stream : ℕ) (packet : Packet.Packet) (write_error : PacketError)
      (server : Bool)
      → IsAuthentic codec c
      → IsAuthentic codec (on_packet_received codec c stream packet write_error server).0
  unfolding on_response_received
  on_packet_received-IsAuthentic c stream packet write_error server a =
      packet_cases codec c stream packet write_error server (λ r. IsAuthentic codec r.0)
        (seen-IsAuthentic c stream a)
        (λ fresh.
          on_device_id-IsAuthentic (seen c stream) stream packet.payload write_error server
            (seen-IsAuthentic c stream a))
        (λ requested.
          let i = info_or_new (c.connections stream) in
          check_response-IsAuthentic codec (seen c stream) stream i.device server
            (requested-Listed c.allowed_devices i
              (IsKnown-info_or_new c.allowed_devices (c.connections stream) (a.known stream))
              requested)
            (ap (λ o. (info_or_new o).device) (update_self c.connections stream (some i)))
            (seen-IsAuthentic c stream a) (codec.response_from_json packet.payload))

  end_flow-IsAuthentic :
      (c : Connection) (stream : ℕ) (e : PacketError) (server : Bool)
      → IsAuthentic codec c
      → IsAuthentic codec (end_flow c stream e server)
  unfolding end_flow
  end_flow-IsAuthentic c stream e server a =
      let closed = IsAuthentic-update codec c c.phase stream none tt a in
      elim (Bool-cases (not (is_error e) || not (is_unknown c.unlock_state))) [
        | inl quiet ↦ rw quiet closed
        | inr report ↦ rw report (by_role server closed)
      ]
    where
      by_role :
          (b : Bool)
          → IsAuthentic codec (record c { connections = update c.connections stream none })
          → IsAuthentic codec (
              if b then record c { connections = update c.connections stream none } else record c {
                connections = update c.connections stream none;
                unlock_state = map_packet_error e data_error;
              })
      by_role true h = h
      by_role false h =
          IsAuthentic-failure codec _ (map_packet_error e data_error)
            (IsFailure-map_packet_error e data_error (refl, refl)) h

  -- A client's own device is allowed.
  abbrev pub IsOwner : Bool → Connection → Type 0
  IsOwner true c = Unit {0}
  IsOwner false c = Listed c.paired_device c.allowed_devices

  begin_flow-IsAuthentic :
      (c : Connection) (stream : ℕ) (server : Bool) (write_error : PacketError)
      → IsOwner server c
      → IsAuthentic codec c
      → IsAuthentic codec (begin_flow codec c stream server write_error).0
  unfolding begin_flow
  begin_flow-IsAuthentic c stream true write_error own a =
      IsAuthentic-update codec c phone_unlocking stream _ (inl refl) a
  begin_flow-IsAuthentic c stream false write_error own a =
      elim (Bool-cases (is_error (send_unlock_request codec c c.paired_device write_error))) [
        | inl failed ↦ rw failed (
            IsAuthentic-failure codec _ _ (IsFailure-map_packet_error _ unk_error (refl, refl))
              (IsAuthentic-update codec c phone_unlocking stream _ (inr own) a))
        | inr sent ↦ rw sent (IsAuthentic-update codec c phone_unlocking stream _ (inr own) a)
      ]

  pub record Inv (s : System) : Type 0 where
    pub authentic : IsAuthentic codec s.connection
    pub owner : IsOwner s.server s.connection

  -- Where the device stays or becomes an allowed one, a client still owns an allowed one.
  IsOwner-Keeps :
      (server : Bool) (c c' : Connection) (device : PairedDevice)
      → Keeps c device c'
      → (device ≡ c.paired_device) ⊎ Listed device c.allowed_devices
      → IsOwner server c
      → IsOwner server c'
  IsOwner-Keeps true c c' device k l own = tt
  IsOwner-Keeps false c c' device (ds, _, inl e) l own = rw (e, ds) own
  IsOwner-Keeps false c c' device (ds, _, inr e) (inl l) own = rw (e, l, ds) own
  IsOwner-Keeps false c c' device (ds, _, inr e) (inr l) own = rw (e, ds) l

  on_packet_received-IsOwner :
      (c : Connection) (stream : ℕ) (packet : Packet.Packet) (write_error : PacketError)
      (server : Bool)
      → IsAuthentic codec c
      → IsOwner server c
      → IsOwner server (on_packet_received codec c stream packet write_error server).0
  on_packet_received-IsOwner c stream packet write_error server a own =
      let now = seen c stream in
      let i = info_or_new (c.connections stream) in
      packet_cases codec c stream packet write_error server (λ r. IsOwner server r.0)
        (IsOwner-Keeps server c now c.paired_device (refl, refl, inl refl) (inl refl) own)
        (λ fresh.
          IsOwner-Keeps server c _ c.paired_device
            (on_device_id-Keeps codec now stream packet.payload write_error server c.paired_device)
            (inl refl) own)
        (λ requested.
          IsOwner-Keeps server c _ i.device
            (on_response_received-Keeps codec now stream packet.payload i.device server)
            (inr (
              requested-Listed c.allowed_devices i
                (IsKnown-info_or_new c.allowed_devices (c.connections stream) (a.known stream))
                requested))
            own)

  closes-Inv :
      (s : System) (stream : ℕ) (e : PacketError) (c : Connection)
      → IsAuthentic codec c
      → IsOwner s.server c
      → Inv (closes s stream e c)
  closes-Inv s stream e c a own = record {
    authentic = end_flow-IsAuthentic c stream e s.server a;
    owner =
        IsOwner-Keeps s.server c _ c.paired_device
          (end_flow-Keeps codec c stream e s.server c.paired_device) (inl refl) own;
  }

  on_connect-Inv :
      (s : System) (stream : ℕ) (write_error : PacketError) (busy : Bool)
      → Inv s
      → Inv (on_connect codec s stream write_error busy)
  unfolding on_connect
  on_connect-Inv s stream write_error true v = v
  on_connect-Inv s stream write_error false v =
      let c = (begin_flow codec s.connection stream s.server write_error).0 in
      let a = begin_flow-IsAuthentic s.connection stream s.server write_error v.owner v.authentic in
      let own =
        IsOwner-Keeps s.server s.connection c s.connection.paired_device
          (begin_flow-Keeps codec s.connection stream s.server write_error
            s.connection.paired_device)
          (inl refl) v.owner in
      elim (Bool-cases (begin_flow codec s.connection stream s.server write_error).1) [
        | inl is_open ↦ rw is_open (record { authentic = a; owner = own })
        | inr shut ↦ rw shut (closes-Inv s stream no_error c a own)
      ]

  on_read-Inv :
      (s : System) (stream : ℕ) (packet : Packet.Packet) (write_error : PacketError) (busy : Bool)
      → Inv s
      → Inv (on_read codec s stream packet write_error busy)
  unfolding on_read
  on_read-Inv s stream packet write_error false v = v
  on_read-Inv s stream packet write_error true v =
      let r = on_packet_received codec s.connection stream packet write_error s.server in
      let a =
        on_packet_received-IsAuthentic s.connection stream packet write_error s.server
          v.authentic in
      let own =
        on_packet_received-IsOwner s.connection stream packet write_error s.server v.authentic
          v.owner in
      elim (Bool-cases (is_error packet.error)) [
        | inl broken ↦ rw broken (closes-Inv s stream packet.error s.connection v.authentic v.owner)
        | inr fine ↦ rw fine (elim (Bool-cases r.1) [
          | inl more ↦ rw more (record { authentic = a; owner = own })
          | inr stop ↦ rw stop (closes-Inv s stream no_error r.0 a own)
        ])
      ]

  step-Inv : (s : System) (e : Event) → Inv s → Inv (step codec s e)
  unfolding step
  step-Inv s (connects stream write_error) v =
      on_connect-Inv s stream write_error (s.running stream) v
  step-Inv s (receives stream packet write_error) v =
      on_read-Inv s stream packet write_error (s.running stream) v

  run-Inv : (s : System) (es : List Event) → Inv s → Inv (run codec s es)
  unfolding run
  run-Inv s [] v = v
  run-Inv s (e ∷ es) v = run-Inv (step codec s e) es (step-Inv s e v)

  -- A connection object before its first stream: no entry, the state unknown.
  pub record IsFresh (s : System) : Type 0 where
    pub no_streams : (k : ℕ) → s.connection.connections k ≡ none
    pub undecided : s.connection.unlock_state ≡ unknown
    pub owner : IsOwner s.server s.connection

  IsFresh-Inv : (s : System) → IsFresh s → Inv s
  IsFresh-Inv s f = record {
    authentic = record { known = λ k. rw (f.no_streams k) tt; proven = rw f.undecided tt };
    owner = f.owner;
  }

  -- Whatever the peers of all its streams send, in whatever order the streams take turns and however
  -- writes fail: a connection object that reports success holds response data that some text decrypts to
  -- under the key of its device, the device is one of the allowed ones, and the data has the token that
  -- this connection put into its requests. The object starts with no streams and an unknown state, and a
  -- client's own device is allowed.
  pub run-Evidence :
      (s : System) (es : List Event)
      → IsFresh s
      → (run codec s es).connection.unlock_state ≡ success
      → Evidence codec (run codec s es).connection
  run-Evidence s es f e = rw e at (run-Inv s es (IsFresh-Inv s f)).authentic.proven
