-- ===== src/Pam.antt =====
-- The PAM configuration: common_desktop/src/installer/helpers/PAMHelper.cpp, on Linux.
--
-- `Pam` is the file system with the helper's pending changes. The pending changes are in the order of
-- their first assignment, where the source's map has them by path. Log lines are left out.

pub mod Commit
mod Tests
use pcbu_desktop.Base.{
  ℕ, Bool, true, false, not, ◌&&◌, ◌||◌, List, [], ◌∷◌, ◌++◌, Option, none, some, ◌==◌,
  if◌then◌else◌, Bytes, codes, str_eq, is_empty, contains,
}
use pcbu_desktop.Text.{replace, split}

pub record Pam : Type 0 where
  pub files : Bytes → Option Bytes
  pub pending : List (Bytes × Option Bytes)

abbrev pub config_path : Bytes → Bytes
config_path name = codes "/etc/pam.d/" ++ name

abbrev pub gen_entry : Bytes
gen_entry = codes "## Generated by PulseUnlock"

abbrev pub gen_entry_old : Bytes
gen_entry_old = codes "## Generated by PC Bio Unlock"

abbrev pub newline : Bytes
newline = 10 ∷ []

abbrev pub with_lines : List Bytes → Bytes
with_lines [] = []
with_lines (line ∷ lines) = line ++ (newline ++ with_lines lines)

unfoldable pub gen_common : Bytes → Bytes
gen_common entry = with_lines (
    []
    ∷ codes "#%PAM-1.0"
    ∷ entry
    ∷ gen_entry
    ∷ []
    ∷ codes "auth include common-auth"
    ∷ codes "account include common-account"
    ∷ codes "password include common-password"
    ∷ codes "session include common-session"
    ∷ [])

unfoldable pub gen_system : Bytes → Bytes
gen_system entry = with_lines (
    []
    ∷ codes "#%PAM-1.0"
    ∷ entry
    ∷ gen_entry
    ∷ []
    ∷ codes "auth include system-auth"
    ∷ codes "account include system-auth"
    ∷ codes "password include system-auth"
    ∷ codes "session include system-auth"
    ∷ [])

unfoldable pub find_change : List (Bytes × Option Bytes) → Bytes → Option (Option Bytes)
unfolding str_eq
find_change [] path = none
find_change ((key, change) ∷ rest) path =
    if str_eq key path then some change else find_change rest path

-- `m_PendingChanges[path] = change`
unfoldable pub set_change :
    List (Bytes × Option Bytes) → Bytes → Option Bytes → List (Bytes × Option Bytes)
unfolding str_eq
set_change [] path change = (path, change) ∷ []
set_change ((key, old) ∷ rest) path change =
    if str_eq key path then (key, change) ∷ rest else (key, old) ∷ set_change rest path change

abbrev pub is_there : Option Bytes → Bool
is_there none = false
is_there (some contents) = true

-- ReadBytes: a missing file is read as empty.
abbrev pub or_empty : Option Bytes → Bytes
or_empty none = []
or_empty (some contents) = contents

-- A file as the helper sees it, behind its pending changes.
abbrev pub seen_file : Pam → Bytes → Option Bytes
seen_file p path = elim (find_change p.pending path) [ none ↦ p.files path | some change ↦ change ]

unfoldable pub config_exists : Pam → Bytes → Bool
unfolding find_change
config_exists p path = is_there (seen_file p path)

unfoldable pub read_config : Pam → Bytes → Bytes
unfolding find_change
read_config p path = or_empty (seen_file p path)

unfoldable pub is_config_generated : Pam → Bytes → Bool
unfolding read_config contains
is_config_generated p path =
    contains (read_config p path) gen_entry || contains (read_config p path) gen_entry_old

unfoldable pub has_config_entry : Pam → Bytes → Bytes → Bool
unfolding contains
has_config_entry p name entry = elim (p.files (config_path name)) [
  | none ↦ false
  | some contents ↦ contains contents entry
]

abbrev pub change_file : Pam → Bytes → Option Bytes → Pam
change_file p path change = record p { pending = set_change p.pending path change }

-- `while(resultStr.ends_with("\n\n")) resultStr.pop_back();`
unfoldable pub trim_newlines : Bytes → Bytes
unfolding str_eq
trim_newlines [] = []
trim_newlines (b ∷ bs) =
    let rest = trim_newlines bs in if b == 10 && str_eq rest newline then rest else b ∷ rest

unfoldable pub insert_entry : Bool → Bytes → List Bytes → Bytes
unfolding str_eq
insert_entry has_begin entry [] = []
insert_entry has_begin entry (line ∷ lines) =
    let rest = insert_entry has_begin entry lines in
    if str_eq line (codes "#%PAM-1.0") && has_begin
    then line ++ (newline ++ (entry ++ (newline ++ rest)))
    else line ++ (newline ++ rest)

unfoldable pub add_entry_to_file : Pam → Bytes → Bytes → Pam
unfolding read_config contains insert_entry trim_newlines split set_change
add_entry_to_file p path entry =
    let text = read_config p path in
    let has_begin = contains text (codes "#%PAM-1.0" ++ newline) in
    let start = if has_begin then [] else with_lines (codes "#%PAM-1.0" ∷ entry ∷ []) in
    change_file p path
      (some (trim_newlines (start ++ insert_entry has_begin entry (split text newline))))

unfoldable pub is_line_of : List Bytes → Bytes → Bool
unfolding str_eq
is_line_of [] line = false
is_line_of (entry ∷ entries) line = if str_eq line entry then true else is_line_of entries line

unfoldable pub without_lines : List Bytes → List Bytes → Bytes
unfolding is_line_of
without_lines entries [] = []
without_lines entries (line ∷ lines) =
    let rest = without_lines entries lines in
    if not (is_line_of entries line) then line ++ (newline ++ rest) else rest

unfoldable pub remove_entry_from_file : Pam → Bytes → Bytes → Pam
unfolding read_config without_lines trim_newlines split set_change
remove_entry_from_file p path entry = change_file p path (
    some (trim_newlines (without_lines (split entry newline) (split (read_config p path) newline))))

unfoldable pub add_to_config : Pam → Bytes → Bytes → Pam
unfolding config_exists add_entry_to_file gen_common gen_system set_change
add_to_config p name entry =
    if config_exists p (config_path name)
    then add_entry_to_file p (config_path name) entry
    else if is_there (p.files (config_path (codes "system-auth")))
    then change_file p (config_path name) (some (gen_system entry))
    else change_file p (config_path name) (some (gen_common entry))

unfoldable pub remove_from_config : Pam → Bytes → Bytes → Pam
unfolding config_exists is_config_generated remove_entry_from_file set_change
remove_from_config p name entry =
    if not (config_exists p (config_path name))
    then p
    else if is_config_generated p (config_path name)
    then change_file p (config_path name) none
    else remove_entry_from_file p (config_path name) entry

unfoldable pub service_paths : List Bytes
service_paths =
    codes "/lib64/systemd/system/polkit-agent-helper@.service"
    ∷ codes "/lib64/systemd/system/polkit-agent-helper.service"
    ∷ codes "/lib/systemd/system/polkit-agent-helper@.service"
    ∷ codes "/lib/systemd/system/polkit-agent-helper.service"
    ∷ codes "/usr/lib64/systemd/system/polkit-agent-helper@.service"
    ∷ codes "/usr/lib64/systemd/system/polkit-agent-helper.service"
    ∷ codes "/usr/lib/systemd/system/polkit-agent-helper@.service"
    ∷ codes "/usr/lib/systemd/system/polkit-agent-helper.service"
    ∷ codes "/etc/systemd/system/polkit-agent-helper@.service"
    ∷ codes "/etc/systemd/system/polkit-agent-helper.service"
    ∷ []

unfoldable pub find_service : (Bytes → Option Bytes) → List Bytes → Option (Bytes × Bytes)
find_service files [] = none
find_service files (path ∷ paths) = elim (files path) [
  | none ↦ find_service files paths
  | some contents ↦ some (path, contents)
]

abbrev pub replace_all : Bytes → List (Bytes × Bytes) → Bytes
replace_all text [] = text
replace_all text ((from, to) ∷ rest) = replace_all (replace text from to) rest

unfoldable pub restrict : Bool → Bytes → Bytes
unfolding replace
restrict true text = replace_all text (
    (codes "NoNewPrivileges=no", codes "NoNewPrivileges=yes")
    ∷ (codes "PrivateDevices=no", codes "PrivateDevices=yes")
    ∷ (codes "PrivateNetwork=no", codes "PrivateNetwork=yes")
    ∷ (codes "#RestrictAddressFamilies=AF_UNIX", codes "RestrictAddressFamilies=AF_UNIX")
    ∷ (codes "RestrictSUIDSGID=no", codes "RestrictSUIDSGID=yes")
    ∷ (codes "#DeviceAllow=", codes "DeviceAllow=")
    ∷ (codes "#DevicePolicy=strict", codes "DevicePolicy=strict")
    ∷ [])
restrict false text = replace_all text (
    (codes "NoNewPrivileges=yes", codes "NoNewPrivileges=no")
    ∷ (codes "PrivateDevices=yes", codes "PrivateDevices=no")
    ∷ (codes "PrivateNetwork=yes", codes "PrivateNetwork=no")
    ∷ (codes "RestrictAddressFamilies=AF_UNIX", codes "#RestrictAddressFamilies=AF_UNIX")
    ∷ (codes "RestrictSUIDSGID=yes", codes "RestrictSUIDSGID=no")
    ∷ (codes "DeviceAllow=", codes "#DeviceAllow=")
    ∷ (codes "DevicePolicy=strict", codes "#DevicePolicy=strict")
    ∷ [])

abbrev pub write_file : (Bytes → Option Bytes) → Bytes → Option Bytes → Bytes → Option Bytes
write_file files path contents other = if str_eq path other then contents else files other

-- SetPolkitRestrictions, where `writes` tells for each path whether the shell can write or remove it.
unfoldable pub set_polkit_restrictions : Pam → (Bytes → Bool) → Bool → Pam × Bool
unfolding service_paths find_service restrict str_eq
set_polkit_restrictions p writes enabled = elim (find_service p.files service_paths) [
  | none ↦ (p, false)
  | some (path, contents) ↦
      if writes path
      then (record p { files = write_file p.files path (some (restrict enabled contents)) }, true)
      else (p, false)
]

unfoldable pub set_config_entry : Pam → (Bytes → Bool) → Bytes → Bytes → Bool → Pam
unfolding config_exists read_config contains set_polkit_restrictions add_to_config
    remove_from_config str_eq
set_config_entry p writes name entry enabled =
    let path = config_path name in
    let has_entry = config_exists p path && contains (read_config p path) entry in
    let is_polkit = str_eq name (codes "polkit-1") in
    if enabled && not has_entry
    then add_to_config (if is_polkit then (set_polkit_restrictions p writes false).0 else p) name
        entry
    else if not enabled && has_entry
    then (let q = remove_from_config p name entry in
        if is_polkit then (set_polkit_restrictions q writes true).0 else q)
    else p

-- A change that leaves its file as it is.
unfoldable pub is_done : (Bytes → Option Bytes) → Bytes → Option Bytes → Bool
unfolding str_eq
is_done files path none = not (is_there (files path))
is_done files path (some new) = elim (files path) [
  | none ↦ false
  | some contents ↦ str_eq contents new
]

unfoldable pub changes_of :
    (Bytes → Option Bytes) → List (Bytes × Option Bytes) → List (Bytes × Option Bytes)
unfolding is_done
changes_of files [] = []
changes_of files ((path, change) ∷ rest) =
    let later = changes_of files rest in
    if is_done files path change then later else (path, change) ∷ later

-- The loop of Commit: the files, and the path at which it throws.
unfoldable pub apply_changes :
    (Bytes → Option Bytes)
    → (Bytes → Bool)
    → List (Bytes × Option Bytes)
    → (Bytes → Option Bytes) × Option Bytes
unfolding str_eq
apply_changes files writes [] = (files, none)
apply_changes files writes ((path, change) ∷ rest) =
    let later = apply_changes (write_file files path change) writes rest in
    if writes path then later else (files, some path)

unfoldable pub commit : Pam → (Bytes → Bool) → Pam × Option Bytes
unfolding changes_of apply_changes
commit p writes =
    let (files, thrown) = apply_changes p.files writes (changes_of p.files p.pending) in
    (record { files = files; pending = [] }, thrown)

unfoldable pub migrate_config_entry : Pam → Bytes → Bytes → Bytes → Pam
unfolding config_exists read_config contains replace set_change
migrate_config_entry p name old_entry new_entry =
    let path = config_path name in
    if not (config_exists p path)
    then p
    else let text = read_config p path in
      let is_old = contains text gen_entry_old in
      let renamed = if is_old then replace text gen_entry_old gen_entry else text in
      let has_old_entry = contains renamed old_entry in
      let migrated = if has_old_entry then replace renamed old_entry new_entry else renamed in
      if is_old || has_old_entry then change_file p path (some migrated) else p
