-- ===== src/Pairing/Stored.antt =====
-- What a run of HandleClient leaves of the storage and of its reports.
use mathlib.Core.Option.{some-injective}
use pcbu_desktop.Base.{
  not, ◌∙◌, arith, ◌≡◌, refl, ap, ◌⊎◌, inl, inr, Bool, true, false, ◌∷◌, Option, none, some, Bytes,
  codes, is_empty, Bool-cases, Option-cases, if◌then◌else◌,
}
use pcbu_desktop.Packet.{
  PacketError, write_packet, Packet, Incoming, Outgoing, read_packet, is_error,
}
use pcbu_desktop.Device.{PairedDevice}
use pcbu_desktop.Crypt.{
  CryptPacket, encrypt_aes_packet, OpenSsl, HexCoder, decrypt_aes_packet, encrypt_aes_text,
}
use pcbu_desktop.Storage.{JsonLib, Disk, add_device}
use pcbu_desktop.Pairing.{
  PairingUiData, Machine, Pairing, succeeded, failed, report_error, report_success, empty_response,
  response_json,
}
use pcbu_desktop.Pairing.Handling.{
  is_ok, packet_id_pair_response, refused, Outcome, open_packet, handled, read_encrypted_packet,
  write_encrypted_packet, prepare, after_response, after_refusal, respond, after_read,
  report_failure, handle_client,
}
use pcbu_desktop.Pairing.Prepared.{
  IsPrepared, prepare-cases, TellsKey, IsPrepared-TellsKey, IsPrepared-sealed, IsTaken,
  compare_version-IsTaken,
}

-- A packet with a content that was read came in a packet that decrypts to it under the pairing's key.
abbrev pub IsOpened : OpenSsl → Machine → PairingUiData → Incoming → CryptPacket → Type 0
IsOpened ssl m ui arrivals packet =
    (raw : Packet) × (rest : Incoming) × (read_packet arrivals ≡ some (raw, rest))
    × (is_error raw.error ≡ false)
    × (packet ≡ decrypt_aes_packet ssl m.now raw.payload ui.enc_key)

-- The write of a text that is encrypted under the pairing's key came through.
abbrev pub IsSent : OpenSsl → Machine → PairingUiData → Outgoing → Bytes → Outgoing → Type 0
IsSent ssl m ui out text after =
    (e : PacketError) × (is_ok (encrypt_aes_packet ssl m.reply m.later text ui.enc_key).result
      ≡ true)
    × (write_packet out packet_id_pair_response
          (encrypt_aes_packet ssl m.reply m.later text ui.enc_key).payload
        ≡ some (e, after))
    × (is_error e ≡ false)

write_encrypted_packet-IsSent :
    (ssl : OpenSsl) (m : Machine) (ui : PairingUiData) (out : Outgoing) (text : Bytes)
    (after : Outgoing)
    → write_encrypted_packet ssl m ui out packet_id_pair_response text ≡ some (true, after)
    → IsSent ssl m ui out text after
unfolding write_encrypted_packet
write_encrypted_packet-IsSent ssl m ui out text after h =
    let sealed = encrypt_aes_packet ssl m.reply m.later text ui.enc_key in
    let written = write_packet out packet_id_pair_response sealed.payload in
    elim (Bool-cases (is_ok sealed.result)) [
      | inr bad ↦ let same = rw bad at h in absurd cc
      | inl good ↦ elim (Option-cases written) [
        | inl none_yet ↦ let same = rw (good, none_yet, write_encrypted_packet) at h in absurd cc
        | inr ((e, left), done) ↦
            let same = some-injective _ _ (rw (good, done, write_encrypted_packet) at h) in
            let fine : not (is_error e) ≡ true = ap (λ (x : Bool × Outgoing). x.0) same in
            let end : left ≡ after = ap (λ (x : Bool × Outgoing). x.1) same in
            (e, good, done ∙ ap (λ o. some (e, o)) end, ground arith)
      ]
    ]

module _ {J : Type 0} (lib : JsonLib J) (ssl : OpenSsl) (coder : HexCoder) (m : Machine)
    (disk : Disk) where
  -- What a run that returned did: it stored nothing and reported no success, or it did both, for a device
  -- that was prepared from a packet under the pairing's key, and whose response was written.
  pub record IsPaired (p : Pairing) (arrivals : Incoming) (q : Pairing) : Type 0 where
    pub packet : CryptPacket
    pub device : PairedDevice
    pub text : Bytes
    pub out : Outgoing
    pub opened : IsOpened ssl m p.ui arrivals packet
    pub prepared : IsPrepared lib ssl coder m disk p.ui packet.payload device text
    pub is_taken : IsTaken lib ssl coder m disk prepared.init.proto_version
    pub tells : TellsKey lib ssl coder m disk m.password_key text
    pub sealed :
        encrypt_aes_text ssl coder m.seal p.ui.password m.password_key ≡ some device.password_enc
    pub written : IsSent ssl m p.ui p.out text out
    pub stored : q.storage ≡ add_device lib p.storage disk device
    pub reported : q.reports ≡ (if p.is_running then succeeded ∷ p.reports else p.reports)

  abbrev pub IsUnpaired : Pairing → Pairing → Type 0
  IsUnpaired p q =
      (q.storage ≡ p.storage)
      × ((q.reports ≡ p.reports) ⊎ ((message : Bytes) × (q.reports ≡ failed message ∷ p.reports)))

  abbrev pub Ended : Pairing → Incoming → Outcome → Type 0
  Ended p arrivals (handled q) = IsUnpaired p q ⊎ IsPaired p arrivals q
  Ended p arrivals _ = Unit {0}

  IsUnpaired-report_error :
      (p q : Pairing) (message : Bytes)
      → q.storage ≡ p.storage
      → q.reports ≡ p.reports
      → IsUnpaired p (report_error q message)
  unfolding report_error
  IsUnpaired-report_error p q message e f = elim (Bool-cases q.is_running) [
    | inl running ↦ rw running (e, inr (message, ap (λ rs. failed message ∷ rs) f))
    | inr stopped ↦ rw stopped (e, inl f)
  ]

  pub report_success-keeps :
      (p : Pairing)
      → ((report_success p).storage ≡ p.storage)
        × ((report_success p).reports ≡ (if p.is_running then succeeded ∷ p.reports else p.reports))
  unfolding report_success
  report_success-keeps p = elim (Bool-cases p.is_running) [
    | inl running ↦ (rw running refl, rw running refl)
    | inr stopped ↦ (rw stopped refl, rw stopped refl)
  ]

  after_refusal-Ended :
      (p : Pairing) (arrivals : Incoming) (message : Bytes) (o : Option (Bool × Outgoing))
      → Ended p arrivals (after_refusal lib ssl coder m disk p message o)
  unfolding after_refusal
  after_refusal-Ended p arrivals message none = tt
  after_refusal-Ended p arrivals message (some (true, out)) = inl (refl, inl refl)
  after_refusal-Ended p arrivals message (some (false, out)) =
      inl (IsUnpaired-report_error p (record p { out = out }) message refl refl)

  respond-refused :
      (p : Pairing) (arrivals : Incoming) (message : Bytes)
      → Ended p arrivals (respond lib ssl coder m disk p (refused message))
  unfolding respond
  respond-refused p arrivals message =
      elim (Option-cases (lib.dump (response_json lib message empty_response))) [
        | inl e ↦ rw (e, respond, Ended) tt
        | inr (text, e) ↦
            rw (e, respond, Ended)
              (after_refusal-Ended p arrivals message
                (write_encrypted_packet ssl m p.ui p.out packet_id_pair_response text))
      ]

  module _ (p : Pairing) (arrivals : Incoming) (packet : CryptPacket)
      (opened : IsOpened ssl m p.ui arrivals packet) where
    after_response-Ended :
        (device : PairedDevice) (text : Bytes)
        → IsPrepared lib ssl coder m disk p.ui packet.payload device text
        → (o : Option (Bool × Outgoing))
        → write_encrypted_packet ssl m p.ui p.out packet_id_pair_response text ≡ o
        → Ended p arrivals (after_response lib ssl coder m disk p device o)
    unfolding after_response
    after_response-Ended device text h none w = tt
    after_response-Ended device text h (some (false, out)) w = inl (
        IsUnpaired-report_error p (record p { out = out }) (codes "error_pairing_failed") refl refl)
    after_response-Ended device text h (some (true, out)) w =
        let done =
          report_success-keeps
            (record p { out = out; storage = add_device lib p.storage disk device }) in
        inr (record {
          packet = packet;
          device = device;
          text = text;
          out = out;
          opened = opened;
          prepared = h;
          is_taken =
              compare_version-IsTaken lib ssl coder m disk h.init.proto_version h.same_version;
          tells = IsPrepared-TellsKey lib ssl coder m disk p.ui packet.payload device text h;
          sealed = IsPrepared-sealed lib ssl coder m disk p.ui packet.payload device text h;
          written = write_encrypted_packet-IsSent ssl m p.ui p.out text out w;
          stored = done.0;
          reported = done.1;
        })

    respond-Ended :
        Ended p arrivals
          (respond lib ssl coder m disk p (prepare lib ssl coder m disk p.ui packet.payload))
    unfolding respond
    respond-Ended = elim (prepare-cases lib ssl coder m disk p.ui packet.payload) [
      | inl (message, e) ↦ rw e (respond-refused p arrivals message)
      | inr (device, text, e, h) ↦ rw e (after_response-Ended device text h _ refl)
    ]

  failure_Ended :
      (p : Pairing) (arrivals : Incoming) (failure : Option Bytes)
      → Ended p arrivals (report_failure p failure)
  unfolding report_failure
  failure_Ended p arrivals none = inl (refl, inl refl)
  failure_Ended p arrivals (some message) = inl (IsUnpaired-report_error p p message refl refl)

  after_read-Ended :
      (p : Pairing) (arrivals : Incoming) (o : Option (Packet × Incoming))
      → read_packet arrivals ≡ o
      → Ended p arrivals (after_read lib ssl coder m disk p (open_packet ssl m p.ui o))
  unfolding after_read open_packet
  after_read-Ended p arrivals none e = tt
  after_read-Ended p arrivals (some (raw, rest)) e = elim (Bool-cases (is_error raw.error)) [
    | inl failed_read ↦ rw failed_read (failure_Ended p arrivals _)
    | inr fine ↦
        let packet = decrypt_aes_packet ssl m.now raw.payload p.ui.enc_key in
        elim (Bool-cases (is_empty packet.payload)) [
          | inl nothing ↦ rw fine (rw nothing (failure_Ended p arrivals _))
          | inr something ↦
              rw fine (rw something (respond-Ended p arrivals packet (raw, rest, e, fine, refl)))
        ]
  ]

  -- A run of HandleClient that returns either left the storage as it was and reported no success, or it
  -- has read a packet that decrypts under the key of this pairing to a well-formed request, whose protocol
  -- version has the numbers of the program's own or is malformed, has written a response that tells the new
  -- key, and then has handed to the storage's AddDevice a device with the password encrypted with that key and
  -- reported the success, if it is not stopped.
  pub handle_client-Ended :
      (p : Pairing) (arrivals : Incoming)
      → Ended p arrivals (handle_client lib ssl coder m disk p arrivals)
  unfolding handle_client read_encrypted_packet
  handle_client-Ended p arrivals = after_read-Ended p arrivals (read_packet arrivals) refl
