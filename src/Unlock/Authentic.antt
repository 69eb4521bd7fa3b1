-- ===== src/Unlock/Authentic.antt =====
-- A connection reports success only on an answer that an allowed device's key and the connection's token
-- vouch for.
use pcbu_desktop.Base.{
  ℕ, ◌≡◌, refl, ◌⊎◌, inl, inr, Bool, true, false, List, [], ◌∷◌, Option, none, some, ◌==◌,
  Bool-cases, Bytes, str_eq, str_eq_iff, is_empty, arith,
}
use pcbu_desktop.Device.{PairedDevice}
use pcbu_desktop.Packet.{PacketError}
use pcbu_desktop.Unlock.State.{
  UnlockState, UnlockPhase, success, time_error, data_error, unk_error, is_unknown, is_success,
}
use pcbu_desktop.Unlock.{
  nothing, ConnectionInfo, UnlockResponse, ResponseData, Decrypted, ok, invalid_timestamp,
  other_error, Codec, Connection, info_or_new, update, map_packet_error, find_allowed_device,
  handle_unverified_error, error_state, answered,
}
use pcbu_desktop.Unlock.Handlers.{accept_response, check_data, check_decrypted, check_response}

abbrev pub Listed : PairedDevice → List PairedDevice → Type 0
Listed d [] = ⊥
Listed d (x ∷ xs) = (d ≡ x) ⊎ Listed d xs

pub find_allowed_device-Listed :
    (ds : List PairedDevice) (id : Bytes) {d : PairedDevice}
    → find_allowed_device ds id ≡ some d
    → Listed d ds
unfolding find_allowed_device
find_allowed_device-Listed [] id e = cc
find_allowed_device-Listed (x ∷ xs) id e = elim (Bool-cases (str_eq x.id id)) [
  | inl same ↦ inl (ground arith)
  | inr other ↦ inr (find_allowed_device-Listed xs id (rw other at e))
]

-- A stream past its device ID belongs to an allowed device.
abbrev pub IsKnown : List PairedDevice → Option ConnectionInfo → Type 0
IsKnown ds none = Unit {0}
IsKnown ds (some i) = (i.state ≡ nothing) ⊎ Listed i.device ds

-- What a success rests on: some text that decrypts under the key of an allowed device, which is the
-- device of the connection, to the response data, with the token of this connection in it.
pub record Evidence (codec : Codec) (c : Connection) : Type 0 where
  pub enc_data : Bytes
  pub plain : Bytes
  pub listed : Listed c.paired_device c.allowed_devices
  pub decrypts : codec.decrypt (codec.from_hex enc_data) c.paired_device.encryption_key ≡ ok plain
  pub parses : codec.data_from_json plain ≡ some c.response_data
  pub token : c.response_data.unlock_token ≡ c.unlock_token

abbrev pub IsProven : Codec → UnlockState → Connection → Type 0
IsProven codec success c = Evidence codec c
IsProven codec _ c = Unit {0}

pub record IsAuthentic (codec : Codec) (c : Connection) : Type 0 where
  pub known : (k : ℕ) → IsKnown c.allowed_devices (c.connections k)
  pub proven : IsProven codec c.unlock_state c

-- The state that an error is mapped to is never a success.
abbrev pub IsFailure : UnlockState → Type 0
IsFailure s = (is_success s ≡ false) × (is_unknown s ≡ false)

pub IsFailure-map_packet_error :
    (e : PacketError) (fallback : UnlockState)
    → IsFailure fallback
    → IsFailure (map_packet_error e fallback)
unfolding map_packet_error
IsFailure-map_packet_error PacketError.closed_connection fallback h = (refl, refl)
IsFailure-map_packet_error PacketError.timeout fallback h = (refl, refl)
IsFailure-map_packet_error PacketError.unsupported_version fallback h = (refl, refl)
IsFailure-map_packet_error PacketError.peer_unavailable fallback h = (refl, refl)
IsFailure-map_packet_error _ fallback h = h

pub IsFailure-error_state : (error : Bytes) → IsFailure (error_state error)
unfolding error_state
IsFailure-error_state error = ground arith

pub IsKnown-update :
    (ds : List PairedDevice) (m : ℕ → Option ConnectionInfo) (stream : ℕ)
    (v : Option ConnectionInfo)
    → ((k : ℕ) → IsKnown ds (m k))
    → IsKnown ds v
    → (k : ℕ) → IsKnown ds (update m stream v k)
IsKnown-update ds m stream v known h k = elim (Bool-cases (k == stream)) [
  | inl same ↦ rw same h
  | inr other ↦ rw other (known k)
]

pub IsKnown-info_or_new :
    (ds : List PairedDevice) (o : Option ConnectionInfo)
    → IsKnown ds o
    → IsKnown ds (some (info_or_new o))
IsKnown-info_or_new ds none h = inl refl
IsKnown-info_or_new ds (some i) h = h

module _ (codec : Codec) where
  IsProven-failure :
      (state : UnlockState) (c : Connection) → is_success state ≡ false → IsProven codec state c
  IsProven-failure success c h = cc
  IsProven-failure _ c h = tt

  -- What the evidence does not look at may change.
  IsProven-move :
      (state : UnlockState) (c : Connection) (p : UnlockPhase) (m : ℕ → Option ConnectionInfo)
      → IsProven codec state c
      → IsProven codec state (record c { phase = p; connections = m })
  IsProven-move success c p m e = record {
    enc_data = e.enc_data;
    plain = e.plain;
    listed = e.listed;
    decrypts = e.decrypts;
    parses = e.parses;
    token = e.token;
  }
  IsProven-move _ c p m e = tt

  pub IsAuthentic-failure :
      (c : Connection) (state : UnlockState)
      → IsFailure state
      → IsAuthentic codec c
      → IsAuthentic codec (record c { unlock_state = state })
  IsAuthentic-failure c state h a = record {
    known = a.known;
    proven = IsProven-failure state (record c { unlock_state = state }) h.0;
  }

  -- A new entry of a stream.
  pub IsAuthentic-update :
      (c : Connection) (p : UnlockPhase) (stream : ℕ) (v : Option ConnectionInfo)
      → IsKnown c.allowed_devices v
      → IsAuthentic codec c
      → IsAuthentic codec (record c { phase = p; connections = update c.connections stream v })
  IsAuthentic-update c p stream v h a = record {
    known = IsKnown-update c.allowed_devices c.connections stream v a.known h;
    proven = IsProven-move c.unlock_state c p (update c.connections stream v) a.proven;
  }

  pub handle_unverified_error-IsAuthentic :
      (c : Connection) (state : UnlockState) (server : Bool)
      → IsFailure state
      → IsAuthentic codec c
      → IsAuthentic codec (handle_unverified_error c state server).0
  unfolding handle_unverified_error
  handle_unverified_error-IsAuthentic c state true h a = a
  handle_unverified_error-IsAuthentic c state false h a = IsAuthentic-failure c state h a

  IsKnown-answered :
      (ds : List PairedDevice) (o : Option ConnectionInfo) (d : PairedDevice)
      → IsKnown ds o
      → (info_or_new o).device ≡ d
      → Listed d ds
      → IsKnown ds (answered o)
  IsKnown-answered ds none d h e l = tt
  IsKnown-answered ds (some i) d h e l = inr (rw e l)

  accept_response-IsAuthentic :
      (c : Connection) (stream : ℕ) (enc_data plain : Bytes) (device : PairedDevice)
      (answer : ResponseData)
      → Listed device c.allowed_devices
      → (info_or_new (c.connections stream)).device ≡ device
      → codec.decrypt (codec.from_hex enc_data) device.encryption_key ≡ ok plain
      → codec.data_from_json plain ≡ some answer
      → answer.unlock_token ≡ c.unlock_token
      → IsAuthentic codec c
      → IsAuthentic codec (accept_response codec c stream device answer).0
  unfolding accept_response
  accept_response-IsAuthentic c stream enc_data plain device answer listed same decrypts parses
        token a =
      elim (Bool-cases (is_unknown c.unlock_state)) [
        | inl open_state ↦ rw open_state (record {
          known =
              IsKnown-update c.allowed_devices c.connections stream
                (answered (c.connections stream)) a.known
                (IsKnown-answered c.allowed_devices (c.connections stream) device (a.known stream)
                  same listed);
          proven = record {
            enc_data = enc_data;
            plain = plain;
            listed = listed;
            decrypts = decrypts;
            parses = parses;
            token = token;
          };
        })
        | inr settled ↦ rw settled a
      ]

  module _ (c : Connection) (stream : ℕ) (device : PairedDevice) (server : Bool)
      (listed : Listed device c.allowed_devices)
      (same : (info_or_new (c.connections stream)).device ≡ device) (a : IsAuthentic codec c) where
    check_data-IsAuthentic :
        (enc_data plain : Bytes) (o : Option ResponseData)
        → codec.decrypt (codec.from_hex enc_data) device.encryption_key ≡ ok plain
        → codec.data_from_json plain ≡ o
        → IsAuthentic codec (check_data codec c stream device o server).0
    unfolding check_data
    check_data-IsAuthentic enc_data plain none decrypts parses =
        IsAuthentic-failure c data_error (refl, refl) a
    check_data-IsAuthentic enc_data plain (some answer) decrypts parses =
        elim (Bool-cases (str_eq answer.unlock_token c.unlock_token)) [
          | inl token ↦ rw token (
              accept_response-IsAuthentic c stream enc_data plain device answer listed same decrypts
                parses ((str_eq_iff _ _).0 token) a)
          | inr other ↦
              rw other (handle_unverified_error-IsAuthentic c unk_error server (refl, refl) a)
        ]

    check_decrypted-IsAuthentic :
        (enc_data : Bytes) (r : Decrypted)
        → codec.decrypt (codec.from_hex enc_data) device.encryption_key ≡ r
        → IsAuthentic codec (check_decrypted codec c stream device r server).0
    unfolding check_decrypted
    check_decrypted-IsAuthentic enc_data (ok plain) e =
        check_data-IsAuthentic enc_data plain (codec.data_from_json plain) e refl
    check_decrypted-IsAuthentic enc_data invalid_timestamp e =
        IsAuthentic-failure c time_error (refl, refl) a
    check_decrypted-IsAuthentic enc_data other_error e =
        handle_unverified_error-IsAuthentic c data_error server (refl, refl) a

    pub check_response-IsAuthentic :
        (r : Option UnlockResponse)
        → IsAuthentic codec (check_response codec c stream device r server).0
    unfolding check_response
    check_response-IsAuthentic none =
        handle_unverified_error-IsAuthentic c data_error server (refl, refl) a
    check_response-IsAuthentic (some r) = elim (Bool-cases (is_empty r.error)) [
      | inl fine ↦ rw fine (check_decrypted-IsAuthentic r.enc_data _ refl)
      | inr failed ↦
          rw failed (IsAuthentic-failure c (error_state r.error) (IsFailure-error_state r.error) a)
    ]
