-- ===== src/DeviceCommands.antt =====
-- The devices of the cli: FindDevice and the removals of cli/src/commands/DeviceCommands.cpp.
pub mod Find
mod Tests
use pcbu_desktop.Base.{
  ℕ, Bool, true, false, List, [], ◌∷◌, ◌++◌, Option, none, some, if◌then◌else◌, Bytes, str_eq,
  starts_with, is_empty,
}
use pcbu_desktop.Device.{PairedDevice}
use pcbu_desktop.Storage.{JsonLib, Storage, Disk, get_devices, remove_device}
use pcbu_desktop.SshServers.{remove_server}

-- A device, or one of the exceptions.
pub data FoundDevice : Type 0 where
  found : PairedDevice → FoundDevice
  missing_id : FoundDevice
  no_device : FoundDevice
  ambiguous : FoundDevice

-- What follows the loop.
unfoldable pub only_match : List PairedDevice → FoundDevice
only_match [] = no_device
only_match (d ∷ []) = found d
only_match (d ∷ e ∷ ds) = ambiguous

-- The loop over the devices, with the matches so far.
unfoldable pub find_loop : List PairedDevice → Bytes → List PairedDevice → FoundDevice
unfolding str_eq starts_with only_match
find_loop [] id matches = only_match matches
find_loop (d ∷ ds) id matches =
    let rest = find_loop ds id (if starts_with d.id id then matches ++ (d ∷ []) else matches) in
    if str_eq d.id id then found d else rest

-- How a command ends: an exit code or an exception.
pub data CommandEnd : Type 0 where
  exit : ℕ → CommandEnd
  not_found : FoundDevice → CommandEnd
  needs_yes : CommandEnd
  invalid_index : CommandEnd
  no_server : CommandEnd

-- What `std::from_chars` reads from the whole text of an index.
pub data ReadIndex : Type 0 where
  invalid : ReadIndex
  negative : ReadIndex
  number : ℕ → ReadIndex

module _ {J : Type 0} (lib : JsonLib J) where
  unfoldable pub find : Storage → Bytes → Storage × FoundDevice
  unfolding get_devices find_loop
  find st id =
      if is_empty id
      then (st, missing_id)
      else ((get_devices lib st).0, find_loop (get_devices lib st).1 id [])

module _ {J : Type 0} (lib : JsonLib J) (disk : Disk) where
  -- `devices remove`. `has_yes` tells whether `--yes` or `-y` is given, and `answer` is what the user answers,
  -- `none` where there is no terminal to ask on.
  unfoldable pub remove_device_found :
      Bool → Option Bool → Storage × FoundDevice → Storage × CommandEnd
  unfolding remove_device
  remove_device_found true answer (st, found d) = (remove_device lib st disk d.id, exit 0)
  remove_device_found false none (st, found d) = (st, needs_yes)
  remove_device_found false (some false) (st, found d) = (st, exit 1)
  remove_device_found false (some true) (st, found d) = (remove_device lib st disk d.id, exit 0)
  remove_device_found has_yes answer (st, missing_id) = (st, not_found missing_id)
  remove_device_found has_yes answer (st, no_device) = (st, not_found no_device)
  remove_device_found has_yes answer (st, ambiguous) = (st, not_found ambiguous)

  unfoldable pub devices_remove : Bool → Option Bool → Storage → Bytes → Storage × CommandEnd
  unfolding find remove_device_found
  devices_remove has_yes answer st id = remove_device_found has_yes answer (find lib st id)

  -- `RemoveServer`, and what its answer means.
  unfoldable pub remove_at : Storage → Bytes → Option ℕ → Storage × CommandEnd
  unfolding remove_server
  remove_at st id index =
      let removed = remove_server lib disk st id index in
      (removed.0, if removed.1 then exit 0 else no_server)

  -- `ssh remove`.
  unfoldable pub ssh_remove_found : ReadIndex → Storage × FoundDevice → Storage × CommandEnd
  unfolding remove_at
  ssh_remove_found invalid (st, found d) = (st, invalid_index)
  ssh_remove_found negative (st, found d) = remove_at st d.id none
  ssh_remove_found (number n) (st, found d) = remove_at st d.id (some n)
  ssh_remove_found index (st, missing_id) = (st, not_found missing_id)
  ssh_remove_found index (st, no_device) = (st, not_found no_device)
  ssh_remove_found index (st, ambiguous) = (st, not_found ambiguous)

  unfoldable pub ssh_remove : Storage → Bytes → ReadIndex → Storage × CommandEnd
  unfolding find ssh_remove_found
  ssh_remove st id index = ssh_remove_found index (find lib st id)
