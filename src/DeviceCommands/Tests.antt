-- ===== src/DeviceCommands/Tests.antt =====
-- Two phones, the ID of one of which begins the ID of the other.
use pcbu_desktop.Base.{◌≡◌, refl, true, false, [], ◌∷◌, none, codes, str_eq, starts_with}
use pcbu_desktop.Device.{PairedDevice, empty_device}
use pcbu_desktop.Storage.{Storage, Disk, get_devices, find_device, get_device_by_id}
use pcbu_desktop.Storage.Value.{nil, value_lib}
use pcbu_desktop.SshServers.{remove_server, remove_found}
use pcbu_desktop.DeviceCommands.{
  found, ambiguous, not_found, needs_yes, no_server, number, remove_at, find, find_loop, only_match,
  devices_remove, remove_device_found, ssh_remove, ssh_remove_found,
}
use pcbu_desktop.DeviceCommands.Find.{IsAnswer, find-IsAnswer}

abbrev older : PairedDevice
older = record empty_device { id = codes "ab1" }

abbrev newer : PairedDevice
newer = record empty_device { id = codes "ab" }

abbrev both_phones : Storage
both_phones = record { cache = older ∷ newer ∷ []; file = [] }

abbrev shell_disk : Disk
shell_disk = record { has_file = true; creates = false; writes = true; garbage = [] }

exact_wins : (find (value_lib nil) both_phones (codes "ab")).1 ≡ found newer
unfolding find find_loop only_match get_devices str_eq starts_with
exact_wins = refl

prefix_works : (find (value_lib nil) both_phones (codes "ab1")).1 ≡ found older
unfolding find find_loop only_match get_devices str_eq starts_with
prefix_works = refl

two_match :
    (devices_remove (value_lib nil) shell_disk true none both_phones (codes "a")).1
    ≡ not_found ambiguous
unfolding devices_remove remove_device_found find find_loop only_match get_devices str_eq
    starts_with
two_match = refl

asks_first :
    devices_remove (value_lib nil) shell_disk false none both_phones (codes "ab1")
    ≡ (both_phones, needs_yes)
unfolding devices_remove remove_device_found find find_loop only_match get_devices str_eq
    starts_with
asks_first = refl

no_first_server :
    (ssh_remove (value_lib nil) shell_disk both_phones (codes "ab") (number 0)).1 ≡ no_server
unfolding ssh_remove ssh_remove_found remove_at remove_server remove_found get_device_by_id
    find_device find find_loop only_match get_devices str_eq starts_with
no_first_server = refl

find-IsAnswer_example :
    IsAnswer
      (codes "ab1")
      (get_devices (value_lib nil) both_phones).1
      (find (value_lib nil) both_phones (codes "ab1")).1
find-IsAnswer_example = find-IsAnswer (value_lib nil) both_phones (codes "ab1")
