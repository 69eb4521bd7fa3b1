-- ===== src/Pairing/Opens.antt =====
-- A pairing that goes through: the stored device against the key that the phone got.
use mathlib.Core.Option.{some-injective}
use pcbu_desktop.Base.{
  ◌≤◌, ◌<◌, ◌*◌, ◌≡◌, refl, sym, ◌∙◌, true, false, [], ◌∷◌, ◌++◌, some, Bytes, is_empty, length,
  All,
}
use pcbu_desktop.Packet.{Incoming, Outgoing}
use pcbu_desktop.Device.{PairedDevice}
use pcbu_desktop.Crypt.{CryptPacket, OpenSsl, HexCoder, decrypt_aes_text}
use pcbu_desktop.Crypt.RoundTrip.{IsSealed}
use pcbu_desktop.Crypt.Packets.{decrypt_aes_text-encrypt}
use pcbu_desktop.Storage.{JsonLib, Disk, get_devices, get_device_by_id, add_device, without_id}
use pcbu_desktop.Storage.RoundTrip.{IsJson, IsStorable}
use pcbu_desktop.Storage.Devices.{IsWritten, IsUnique, Works, add_device-get_device_by_id}
use pcbu_desktop.Pairing.{Machine, PairingUiData, Pairing, report_success}
use pcbu_desktop.Pairing.Handling.{
  packet_id_pair_response, ready, handled, new_device, read_encrypted_packet,
  write_encrypted_packet, prepare, after_response, respond, after_read, handle_client,
}
use pcbu_desktop.Pairing.Prepared.{IsPrepared, TellsKey, IsPrepared-TellsKey}
use pcbu_desktop.Pairing.Stored.{report_success-keeps}

module _ {J : Type 0} (lib : JsonLib J) (ssl : OpenSsl) (coder : HexCoder) (m : Machine)
    (disk : Disk) where
  prepare-IsPrepared :
      (ui : PairingUiData) (plain : Bytes) (device : PairedDevice) (text : Bytes)
      → IsPrepared lib ssl coder m disk ui plain device text
      → prepare lib ssl coder m disk ui plain ≡ ready device text
  unfolding prepare
  prepare-IsPrepared ui plain device text h =
      rw (h.parses, prepare)
        (rw h.same_version
          (rw (h.encrypts, prepare) (rw (rw h.is_new at h.dumps, prepare) (rw h.is_new refl))))

  module _ (p : Pairing) (arrivals rest : Incoming) (packet : CryptPacket) (device : PairedDevice)
      (text : Bytes) (out : Outgoing) where
    handle_client-paired :
        read_encrypted_packet ssl m p.ui arrivals ≡ some (packet, rest)
        → is_empty packet.payload ≡ false
        → IsPrepared lib ssl coder m disk p.ui packet.payload device text
        → write_encrypted_packet ssl m p.ui p.out packet_id_pair_response text ≡ some (true, out)
        → handle_client lib ssl coder m disk p arrivals
          ≡ handled (
              report_success
                (record p { out = out; storage = add_device lib p.storage disk device }))
    unfolding handle_client after_read respond after_response
    handle_client-paired reads some_data h writes =
        rw reads (
          rw some_data (rw (prepare-IsPrepared p.ui packet.payload device text h) (rw writes refl)))

    opens_password :
        IsPrepared lib ssl coder m disk p.ui packet.payload device text
        → IsSealed ssl m.seal m.password_key p.ui.password
        → ((bytes : Bytes) → coder.unhex (coder.hex bytes) ≡ some bytes)
        → ((bytes : Bytes) → length (coder.hex bytes) ≡ 2 * length bytes)
        → 0 < length p.ui.password
        → length p.ui.password ≤ 976
        → decrypt_aes_text ssl coder device.password_enc m.password_key ≡ some p.ui.password
    unfolding new_device
    opens_password h sealed reads doubles some_text fits =
        let (out, e, opens) =
          decrypt_aes_text-encrypt ssl coder m.seal p.ui.password m.password_key sealed reads
            doubles some_text fits in
        let same_text : h.password_enc ≡ out = some-injective _ _ (sym h.encrypts ∙ e) in
        rw (h.is_new, same_text) opens

    -- A request that is well formed, whose version compares as the program's own and whose response is written
    -- ends the run with the new device stored: it is the one that is found under its id, and its password opens
    -- to the password that the user gave with a key, and the response's text tells that key to the phone. AES-GCM opens what it seals, the hex coder reads what it
    -- writes, the password has 1 to 976 bytes, the disk and the JSON library work for the devices that are
    -- written, and the devices had different ids.
    pub handle_client-opens :
        read_encrypted_packet ssl m p.ui arrivals ≡ some (packet, rest)
        → is_empty packet.payload ≡ false
        → IsPrepared lib ssl coder m disk p.ui packet.payload device text
        → write_encrypted_packet ssl m p.ui p.out packet_id_pair_response text ≡ some (true, out)
        → IsSealed ssl m.seal m.password_key p.ui.password
        → ((bytes : Bytes) → coder.unhex (coder.hex bytes) ≡ some bytes)
        → ((bytes : Bytes) → length (coder.hex bytes) ≡ 2 * length bytes)
        → 0 < length p.ui.password
        → length p.ui.password ≤ 976
        → IsJson lib
        → Works disk
        → IsWritten lib (without_id device.id (get_devices lib p.storage).1 ++ (device ∷ []))
        → All IsStorable (without_id device.id (get_devices lib p.storage).1 ++ (device ∷ []))
        → IsUnique (get_devices lib p.storage).1
        → (q : Pairing) × (handle_client lib ssl coder m disk p arrivals ≡ handled q)
          × ((get_device_by_id lib q.storage device.id).1 ≡ some device)
          × (decrypt_aes_text ssl coder device.password_enc m.password_key ≡ some p.ui.password)
          × TellsKey lib ssl coder m disk m.password_key text
    handle_client-opens reads some_data h writes sealed unhexes doubles some_text fits laws works
          written storable unique =
        let done = record p { out = out; storage = add_device lib p.storage disk device } in
        (
          report_success done,
          handle_client-paired reads some_data h writes,
          rw ((report_success-keeps lib ssl coder m disk done).0) (
              (add_device-get_device_by_id lib laws disk works p.storage device written storable
                unique).1),
          opens_password h sealed unhexes doubles some_text fits,
          IsPrepared-TellsKey lib ssl coder m disk p.ui packet.payload device text h,
        )
