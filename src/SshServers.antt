-- ===== src/SshServers.antt =====
-- The servers of a device: common_desktop/src/ssh/SshServerHelper.cpp.
--
-- The result of the unlock handler and the random bytes of the encryption are arguments. An error is its
-- text, as the key that is given to I18n; there is none for a success.
pub mod Added
mod Tests
use pcbu_desktop.Base.{
  ℕ, zero, suc, Bool, true, false, not, ◌||◌, List, [], ◌∷◌, ◌++◌, Option, none, some, leb,
  if◌then◌else◌, Bytes, codes, str_eq, is_empty, length,
}
use pcbu_desktop.Device.{SshServer, PairedDevice}
use pcbu_desktop.Crypt.{OpenSsl, HexCoder, Randoms, encrypt_aes_text}
use pcbu_desktop.Storage.{JsonLib, Storage, Disk, get_device_by_id, add_device}
use pcbu_desktop.Unlock.State.{is_success}
use pcbu_desktop.Handler.{UnlockResult, state_key}

unfoldable pub with_server : PairedDevice → SshServer → PairedDevice
with_server d server = record d { ssh_servers = d.ssh_servers ++ (server ∷ []) }

-- `erase` of the server at an index.
unfoldable pub erase_at : List SshServer → ℕ → List SshServer
erase_at [] i = []
erase_at (s ∷ ss) zero = ss
erase_at (s ∷ ss) (suc i) = s ∷ erase_at ss i

module _ {J : Type 0} (lib : JsonLib J) (disk : Disk) where
  -- What is done with the device that is found.
  unfoldable pub store_server : Storage × Option PairedDevice → SshServer → Storage × Option Bytes
  unfolding add_device with_server
  store_server (st, none) server = (st, some (codes "error_unknown"))
  store_server (st, some d) server = (add_device lib st disk (with_server d server), none)

  unfoldable pub add_server :
      OpenSsl
      → HexCoder
      → Randoms
      → Storage
      → PairedDevice
      → SshServer
      → Bytes
      → UnlockResult
      → Storage × Option Bytes
  unfolding state_key str_eq encrypt_aes_text get_device_by_id store_server
  add_server ssl coder randoms st device server password r =
      if not (is_success r.state)
      then (st, some (state_key r.state))
      else if not (str_eq r.device.id device.id) || is_empty r.password_key
      then (st, some (codes "error_ssh_wrong_device"))
      else elim (encrypt_aes_text ssl coder randoms password r.password_key) [
        | none ↦ (st, some (codes "error_ssh_encrypt"))
        | some enc ↦
            store_server (get_device_by_id lib st device.id) (record server { password_enc = enc })
      ]

  -- `index` is `none` where it is negative; the answer is whether there was such a server.
  unfoldable pub remove_found : Storage × Option PairedDevice → Option ℕ → Storage × Bool
  unfolding add_device erase_at
  remove_found (st, none) index = (st, false)
  remove_found (st, some d) none = (st, false)
  remove_found (st, some d) (some i) =
      if leb (length d.ssh_servers) i
      then (st, false)
      else (add_device lib st disk (record d { ssh_servers = erase_at d.ssh_servers i }), true)

  unfoldable pub remove_server : Storage → Bytes → Option ℕ → Storage × Bool
  unfolding get_device_by_id remove_found
  remove_server st id index = remove_found (get_device_by_id lib st id) index
