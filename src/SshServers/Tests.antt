-- ===== src/SshServers/Tests.antt =====
-- A server that is added to a phone.
use pcbu_desktop.Base.{refl, true, false, [], ◌∷◌, ◌++◌, Bytes, codes, str_eq, arith}
use pcbu_desktop.Device.{SshServer, PairedDevice, empty_device}
use pcbu_desktop.Crypt.{encrypt_aes_text, encrypt_aes, to_hex_string}
use pcbu_desktop.Crypt.Tests.{
  plain_ssl, twice_coder, randoms, twice, repeat, halve-twice, length-twice, plain-IsSealed,
}
use pcbu_desktop.Storage.{
  Storage, Disk, devices_json, device_fields, ssh_server_json, get_devices, get_device_by_id,
  find_device,
}
use pcbu_desktop.Storage.Value.{Value, nil, value_lib, value-IsJson}
use pcbu_desktop.Unlock.State.{success}
use pcbu_desktop.Handler.{UnlockResult}
use pcbu_desktop.SshServers.{with_server, add_server}
use pcbu_desktop.SshServers.Added.{IsAdded, IsAddable, add_server-IsAdded}

abbrev phone : PairedDevice
phone = record empty_device { id = codes "phone" }

abbrev asked : SshServer
asked = record { host = codes "host"; user = codes "me"; key_path = []; password_enc = [] }

abbrev ciphered : Bytes
ciphered = twice (repeat 16 1 ++ (repeat 16 2 ++ (codes "pw" ++ repeat 16 0)))

abbrev kept_server : SshServer
kept_server = record {
  host = codes "host";
  user = codes "me";
  key_path = [];
  password_enc = ciphered;
}

abbrev kept_phone : PairedDevice
kept_phone = record phone { ssh_servers = kept_server ∷ [] }

abbrev kept_value : Value
kept_value = devices_json (value_lib nil) (kept_phone ∷ [])

abbrev phone_only : Storage
phone_only = record { cache = phone ∷ []; file = [] }

abbrev shell_disk : Disk
shell_disk = record { has_file = true; creates = false; writes = true; garbage = [] }

abbrev unlocked : UnlockResult
unlocked = record { state = success; device = phone; password = []; password_key = codes "k" }

kept_phone-IsAddable :
    IsAddable
      (value_lib kept_value)
      (get_device_by_id (value_lib kept_value) phone_only phone.id).0
      (with_server phone kept_server)
unfolding IsAddable with_server get_devices get_device_by_id str_eq devices_json device_fields
    ssh_server_json
kept_phone-IsAddable = (
  record { bytes = codes "x"; dumps = refl; parses = refl; filled = refl },
  ((omega arith, omega arith, omega arith, (refl, tt)), tt),
)

add_server-IsAdded_example :
    IsAdded
      (value_lib kept_value)
      plain_ssl
      twice_coder
      phone.id
      phone
      kept_server
      (codes "k")
      (codes "pw")
      (add_server
        (value_lib kept_value)
        shell_disk
        plain_ssl
        twice_coder
        randoms
        phone_only
        phone
        asked
        (codes "pw")
        unlocked)
unfolding get_devices get_device_by_id find_device str_eq encrypt_aes_text encrypt_aes to_hex_string
add_server-IsAdded_example =
    add_server-IsAdded (value_lib kept_value) (value-IsJson kept_value) shell_disk (refl, refl)
      plain_ssl twice_coder randoms phone_only phone asked (codes "pw") unlocked phone ciphered refl
      refl refl (plain-IsSealed (codes "k") (codes "pw")) halve-twice length-twice (omega arith)
      (omega arith) refl refl (tt, tt) kept_phone-IsAddable
