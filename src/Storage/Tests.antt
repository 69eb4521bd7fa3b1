-- ===== src/Storage/Tests.antt =====
-- A storage of one device.
use pcbu_desktop.Base.{◌≡◌, refl, true, false, [], ◌∷◌, some, codes, str_eq, arith}
use pcbu_desktop.Device.{SshServer, PairedDevice, empty_device}
use pcbu_desktop.Storage.{
  Storage, Disk, load, devices_json, device_fields, ssh_server_json, get_devices, get_device_by_id,
  add_device, remove_device, invalidate_cache,
}
use pcbu_desktop.Storage.RoundTrip.{load-devices_json}
use pcbu_desktop.Storage.Value.{Value, nil, value_lib, value-IsJson}
use pcbu_desktop.Storage.Devices.{
  IsWritten, IsUnique, remove_device-get_devices, add_device-get_device_by_id,
}

abbrev laptop_key : SshServer
laptop_key = record { host = codes "host"; user = codes "me"; key_path = []; password_enc = [] }

abbrev phone : PairedDevice
phone = record empty_device { id = codes "phone"; tcp_port = 43296; ssh_servers = laptop_key ∷ [] }

abbrev tablet : PairedDevice
tablet = record empty_device { id = codes "tablet" }

phone_value : Value
phone_value = devices_json (value_lib nil) (phone ∷ [])

abbrev pub disk : Disk
disk = record { has_file = true; creates = false; writes = true; garbage = [] }

phone-IsWritten : IsWritten (value_lib phone_value) (phone ∷ [])
unfolding phone_value devices_json device_fields ssh_server_json
phone-IsWritten = record { bytes = codes "x"; dumps = refl; parses = refl; filled = refl }

abbrev phone_only : Storage
phone_only = record { cache = phone ∷ []; file = [] }

abbrev both : Storage
both = record { cache = phone ∷ tablet ∷ []; file = [] }

load-devices_json_example : load (value_lib phone_value) (codes "x") ≡ phone ∷ []
unfolding phone_value devices_json device_fields ssh_server_json
load-devices_json_example =
    load-devices_json (value_lib phone_value) (value-IsJson phone_value) (phone ∷ []) (codes "x")
      ((omega arith, omega arith, omega arith, (refl, tt)), tt) refl refl refl

remove_device-get_devices_example :
    ((get_devices
        (value_lib phone_value)
        (remove_device (value_lib phone_value) both disk (codes "tablet"))).1
      ≡ phone ∷ [])
    × ((get_devices
          (value_lib phone_value)
          (invalidate_cache (remove_device (value_lib phone_value) both disk (codes "tablet")))).1
        ≡ phone ∷ [])
unfolding get_devices str_eq
remove_device-get_devices_example =
    remove_device-get_devices (value_lib phone_value) (value-IsJson phone_value) disk (refl, refl)
      both (codes "tablet") phone-IsWritten
      ((omega arith, omega arith, omega arith, (refl, tt)), tt)

add_device-get_device_by_id_example :
    IsUnique
      (get_devices
        (value_lib phone_value)
        (add_device (value_lib phone_value) phone_only disk phone)).1
    × ((get_device_by_id
          (value_lib phone_value)
          (add_device (value_lib phone_value) phone_only disk phone)
          (codes "phone")).1
        ≡ some phone)
unfolding get_devices str_eq
add_device-get_device_by_id_example =
    add_device-get_device_by_id (value_lib phone_value) (value-IsJson phone_value) disk (refl, refl)
      phone_only phone phone-IsWritten ((omega arith, omega arith, omega arith, (refl, tt)), tt)
      (tt, tt)
