-- ===== src/SshServers/Added.antt =====
-- Adding a server to a device.
use mathlib.Core.Option.{some-injective}
use pcbu_desktop.Base.{
  ◌≤◌, ◌<◌, ◌*◌, ◌≡◌, refl, sym, ap, ◌∙◌, inl, inr, true, false, List, [], ◌∷◌, ◌++◌, none, some,
  Bytes, str_eq, str_eq_iff, is_empty, length, All, Bool-cases, Option,
}
use pcbu_desktop.Device.{SshServer, PairedDevice}
use pcbu_desktop.Crypt.{OpenSsl, HexCoder, Randoms, encrypt_aes_text, decrypt_aes_text}
use pcbu_desktop.Crypt.RoundTrip.{IsSealed}
use pcbu_desktop.Crypt.Packets.{decrypt_aes_text-encrypt}
use pcbu_desktop.Storage.{
  JsonLib, Storage, Disk, get_devices, get_device_by_id, find_device, add_device, without_id,
}
use pcbu_desktop.Storage.RoundTrip.{IsJson, IsStorable}
use pcbu_desktop.Storage.Devices.{IsWritten, IsUnique, Works, add_device-get_device_by_id}
use pcbu_desktop.Unlock.State.{is_success}
use pcbu_desktop.Handler.{UnlockResult}
use pcbu_desktop.SshServers.{with_server, store_server, add_server}

find_device-id :
    (ds : List PairedDevice) (id : Bytes) (d : PairedDevice)
    → find_device ds id ≡ some d
    → d.id ≡ id
unfolding find_device
find_device-id [] id d e = absurd cc
find_device-id (x ∷ ds) id d e = elim (Bool-cases (str_eq x.id id)) [
  | inl same ↦
      let is_it : x ≡ d = some-injective _ _ (rw same at e) in
      ap (λ (y : PairedDevice). y.id) (sym is_it) ∙ (str_eq_iff x.id id).0 same
  | inr differs ↦ find_device-id ds id d (rw differs at e)
]

store_server-found :
    {J : Type 0} (lib : JsonLib J) (disk : Disk) (o : Storage × Option PairedDevice)
    (server : SshServer) (d : PairedDevice)
    → o.1 ≡ some d
    → store_server lib disk o server ≡ (add_device lib o.0 disk (with_server d server), none)
unfolding store_server
store_server-found lib disk (st, none) server d e = absurd cc
store_server-found lib disk (st, some x) server d e =
    ap (λ (y : PairedDevice). (add_device lib st disk (with_server y server), none))
      (some-injective _ _ e)

-- That the list with the device in its place can be written.
unfoldable pub IsAddable : {J : Type 0} → JsonLib J → Storage → PairedDevice → Type 0
IsAddable lib st device =
    let ds = without_id device.id (get_devices lib st).1 ++ (device ∷ []) in
    IsWritten lib ds × All IsStorable ds

-- There is no error, and the device is found with the new server, whose password the key opens.
unfoldable pub IsAdded :
    {J : Type 0}
    → JsonLib J
    → OpenSsl
    → HexCoder
    → Bytes
    → PairedDevice
    → SshServer
    → Bytes
    → Bytes
    → Storage × Option Bytes
    → Type 0
IsAdded lib ssl coder id d server key password (st, e) =
    (e ≡ none)
    × ((get_device_by_id lib st id).1
        ≡ some (record d { ssh_servers = d.ssh_servers ++ (server ∷ []) }))
    × (decrypt_aes_text ssl coder server.password_enc key ≡ some password)

module _ {J : Type 0} (lib : JsonLib J) (laws : IsJson lib) (disk : Disk) (works : Works disk)
    (ssl : OpenSsl) (coder : HexCoder) (randoms : Randoms) (st : Storage) (device : PairedDevice)
    (server : SshServer) (password : Bytes) (r : UnlockResult) where
  get_device_by_id-id :
      (d : PairedDevice) → (get_device_by_id lib st device.id).1 ≡ some d → d.id ≡ device.id
  unfolding get_device_by_id
  get_device_by_id-id d e = find_device-id (get_devices lib st).1 device.id d e

  add_server-found :
      (d : PairedDevice) (enc : Bytes)
      → is_success r.state ≡ true
      → r.device.id ≡ device.id
      → is_empty r.password_key ≡ false
      → encrypt_aes_text ssl coder randoms password r.password_key ≡ some enc
      → (get_device_by_id lib st device.id).1 ≡ some d
      → add_server lib disk ssl coder randoms st device server password r ≡ (
        add_device lib
            (get_device_by_id lib st device.id).0
            disk
            (with_server d (record server { password_enc = enc })),
        none,
      )
  unfolding add_server
  add_server-found d enc wins same has_key e found =
      rw (wins, (str_eq_iff r.device.id device.id).1 same, has_key, e)
        (store_server-found lib disk (get_device_by_id lib st device.id)
          (record server { password_enc = enc }) d found)

  -- With a success of the phone of a stored device that gives a key which is not empty, stored devices with
  -- different ids, a password of 1 to 976 bytes that is encrypted to `enc`, a list with the changed device that
  -- can be written, and the laws of the JSON library, of the disk, of AES-GCM and of the hex coder, a server is
  -- added without an error: the device is found afterwards with its old servers and the new one behind them,
  -- whose stored password is opened to the same password by the key the phone gave.
  pub add_server-IsAdded :
      (d : PairedDevice) (enc : Bytes)
      → is_success r.state ≡ true
      → r.device.id ≡ device.id
      → is_empty r.password_key ≡ false
      → IsSealed ssl randoms r.password_key password
      → ((bytes : Bytes) → coder.unhex (coder.hex bytes) ≡ some bytes)
      → ((bytes : Bytes) → length (coder.hex bytes) ≡ 2 * length bytes)
      → 0 < length password
      → length password ≤ 976
      → encrypt_aes_text ssl coder randoms password r.password_key ≡ some enc
      → (get_device_by_id lib st device.id).1 ≡ some d
      → IsUnique (get_devices lib (get_device_by_id lib st device.id).0).1
      → IsAddable lib
          (get_device_by_id lib st device.id).0
          (with_server d (record server { password_enc = enc }))
      → IsAdded lib ssl coder device.id d
          (record server { password_enc = enc })
          r.password_key
          password
          (add_server lib disk ssl coder randoms st device server password r)
  unfolding IsAddable IsAdded with_server
  add_server-IsAdded d enc wins same has_key seals reads doubles some_text fits e found unique
        (w, h) =
      let (out, e1, opens) =
        decrypt_aes_text-encrypt ssl coder randoms password r.password_key seals reads doubles
          some_text fits in
      let is_enc : out ≡ enc = some-injective _ _ (sym e1 ∙ e) in
      let new = with_server d (record server { password_enc = enc }) in
      let st1 = (get_device_by_id lib st device.id).0 in
      let (kept_unique, added) =
        add_device-get_device_by_id lib laws disk works st1 new w h unique in
      rw (add_server-found d enc wins same has_key e found) (
        refl,
        ap (λ (i : Bytes). (get_device_by_id lib (add_device lib st1 disk new) i).1)
              (sym (get_device_by_id-id d found))
            ∙ added,
        rw is_enc at opens,
      )
