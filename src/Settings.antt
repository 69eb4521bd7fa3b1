-- ===== src/Settings.antt =====
-- The settings on disk: common/src/storage/AppSettings.cpp, on Linux.
--
-- The base directory is the new one or the old one, and each has the settings' file or not. The JSON library
-- is the interface `ValueLib`, whose functions give `none` where it throws. `GetBaseUserDir` and `GetLogsDir`
-- only name directories and are not modelled.
pub mod Saved
pub mod Config
mod Tests
use pcbu_desktop.Base.{
  ℕ, Bool, true, false, not, ◌&&◌, List, [], ◌∷◌, Option, none, some, ◌>>=◌, if◌then◌else◌, Bytes,
  codes, is_empty,
}

pub record Settings : Type 0 where
  pub machine_id : Bytes
  pub installed_version : Bytes
  pub language : Bytes
  pub server_ip : Bytes
  pub server_mac : Bytes
  pub pairing_discovery_port : ℕ
  pub pairing_server_port : ℕ
  pub unlock_server_port : ℕ
  pub client_socket_timeout : ℕ
  pub client_connect_timeout : ℕ
  pub client_connect_retries : ℕ
  pub unlock_behavior : Bytes
  pub win_hide_password_field : Bool
  pub win_force_default_cred_prov : Bool
  pub unix_set_password_pam : Bool
  pub mac_login_screen : Bool

-- `value_text`, `value_number` (with the bits of its type) and `value_flag` are `json.value(key, default)`.
pub record ValueLib (J : Type 0) : Type 0 where
  pub text : Bytes → J
  pub number : ℕ → J
  pub flag : Bool → J
  pub object : List (Bytes × J) → J
  pub parse : Bytes → Option J
  pub dump : J → Option Bytes
  pub has_key : J → Bytes → Bool
  pub value_text : J → Bytes → Bytes → Option Bytes
  pub value_number : ℕ → J → Bytes → ℕ → Option ℕ
  pub value_flag : J → Bytes → Bool → Option Bool

-- The settings' file in the new and in the old directory.
pub record Dirs : Type 0 where
  pub new_file : Option Bytes
  pub old_file : Option Bytes

-- `g_Cache`, which is empty if it has no machine id, and the directories.
pub record AppSettings : Type 0 where
  pub cache : Settings
  pub dirs : Dirs

-- `PCBUAppStorage()`
abbrev pub empty_settings : Settings
empty_settings = record {
  machine_id = [];
  installed_version = [];
  language = [];
  server_ip = [];
  server_mac = [];
  pairing_discovery_port = 0;
  pairing_server_port = 0;
  unlock_server_port = 0;
  client_socket_timeout = 0;
  client_connect_timeout = 0;
  client_connect_retries = 0;
  unlock_behavior = [];
  win_hide_password_field = false;
  win_force_default_cred_prov = false;
  unix_set_password_pam = false;
  mac_login_screen = false;
}

unfoldable pub invalidate_cache : AppSettings → AppSettings
invalidate_cache a = record a { cache = empty_settings }

-- LoadDefaults, with the random machine id.
unfoldable pub load_defaults : Bytes → Settings
load_defaults machine_id = record {
  machine_id = machine_id;
  installed_version = [];
  language = codes "auto";
  server_ip = codes "auto";
  server_mac = [];
  pairing_discovery_port = 43297;
  pairing_server_port = 43295;
  unlock_server_port = 43296;
  client_socket_timeout = 120;
  client_connect_timeout = 5;
  client_connect_retries = 2;
  unlock_behavior = codes "key_press_lock_only";
  win_hide_password_field = false;
  win_force_default_cred_prov = true;
  unix_set_password_pam = false;
  mac_login_screen = true;
}

abbrev pub is_there : Option Bytes → Bool
is_there none = false
is_there (some bytes) = true

-- GetBaseDir: whether it is the old directory.
unfoldable pub uses_old_dir : Dirs → Bool
uses_old_dir d = not (is_there d.new_file) && is_there d.old_file

abbrev pub settings_file : Dirs → Option Bytes
settings_file d = if is_there d.new_file then d.new_file else d.old_file

unfoldable pub needs_migration : Dirs → Bool
needs_migration d = not (is_there d.new_file) && is_there d.old_file

-- What a write answers: the directory is there or is created, and the bytes are written; a write that fails
-- leaves `garbage`.
pub record Writer : Type 0 where
  pub writes : Bool
  pub garbage : Option Bytes

unfoldable pub write_file : Writer → Dirs → Bytes → Dirs
unfolding uses_old_dir
write_file w d bytes =
    let left = if w.writes then some bytes else w.garbage in
    if uses_old_dir d then record d { old_file = left } else record d { new_file = left }

module _ {J : Type 0} (lib : ValueLib J) where
  unfoldable pub settings_fields : Settings → List (Bytes × J)
  settings_fields s =
      (codes "machineID", lib.text s.machine_id)
      ∷ (codes "installedVersion", lib.text s.installed_version)
      ∷ (codes "language", lib.text s.language)
      ∷ (codes "serverIP", lib.text s.server_ip)
      ∷ (codes "serverMAC", lib.text s.server_mac)
      ∷ (codes "pairingDiscoveryPort", lib.number s.pairing_discovery_port)
      ∷ (codes "pairingServerPort", lib.number s.pairing_server_port)
      ∷ (codes "unlockServerPort", lib.number s.unlock_server_port)
      ∷ (codes "clientSocketTimeout", lib.number s.client_socket_timeout)
      ∷ (codes "clientConnectTimeout", lib.number s.client_connect_timeout)
      ∷ (codes "clientConnectRetries", lib.number s.client_connect_retries)
      ∷ (codes "unlockBehavior", lib.text s.unlock_behavior)
      ∷ (codes "winHidePasswordField", lib.flag s.win_hide_password_field)
      ∷ (codes "winForceDefaultCredProv", lib.flag s.win_force_default_cred_prov)
      ∷ (codes "unixSetPasswordPAM", lib.flag s.unix_set_password_pam)
      ∷ (codes "macLoginScreen", lib.flag s.mac_login_screen)
      ∷ []

  unfoldable pub write : Writer → Dirs → Settings → Dirs
  unfolding settings_fields write_file
  write w d s = elim (lib.dump (lib.object (settings_fields s))) [
    | none ↦ d
    | some bytes ↦ write_file w d bytes
  ]

  -- The values of a file that parses, with the defaults for those that are missing.
  unfoldable pub load_values : J → Settings → Option Settings
  load_values json defaults = do
    machine_id ← lib.value_text json (codes "machineID") defaults.machine_id
    installed_version ← lib.value_text json (codes "installedVersion") defaults.installed_version
    language ← lib.value_text json (codes "language") defaults.language
    server_ip ← lib.value_text json (codes "serverIP") defaults.server_ip
    server_mac ← lib.value_text json (codes "serverMAC") defaults.server_mac
    discovery ←
        lib.value_number 16 json (codes "pairingDiscoveryPort") defaults.pairing_discovery_port
    pairing ← lib.value_number 16 json (codes "pairingServerPort") defaults.pairing_server_port
    unlock ← lib.value_number 16 json (codes "unlockServerPort") defaults.unlock_server_port
    socket ← lib.value_number 32 json (codes "clientSocketTimeout") defaults.client_socket_timeout
    connect ←
        lib.value_number 32 json (codes "clientConnectTimeout") defaults.client_connect_timeout
    retries ←
        lib.value_number 32 json (codes "clientConnectRetries") defaults.client_connect_retries
    old_behavior ← lib.value_text json (codes "winUnlockBehavior") defaults.unlock_behavior
    behavior ← lib.value_text json (codes "unlockBehavior") old_behavior
    hide ← lib.value_flag json (codes "winHidePasswordField") defaults.win_hide_password_field
    force ←
        lib.value_flag json (codes "winForceDefaultCredProv") defaults.win_force_default_cred_prov
    pam ← lib.value_flag json (codes "unixSetPasswordPAM") defaults.unix_set_password_pam
    login ← lib.value_flag json (codes "macLoginScreen") defaults.mac_login_screen
    some (record {
      machine_id = machine_id;
      installed_version = installed_version;
      language = language;
      server_ip = server_ip;
      server_mac = server_mac;
      pairing_discovery_port = discovery;
      pairing_server_port = pairing;
      unlock_server_port = unlock;
      client_socket_timeout = socket;
      client_connect_timeout = connect;
      client_connect_retries = retries;
      unlock_behavior = behavior;
      win_hide_password_field = hide;
      win_force_default_cred_prov = force;
      unix_set_password_pam = pam;
      mac_login_screen = login;
    })

  -- What Load makes of the bytes of the file; `again` is the machine id of the defaults in the catch clause.
  unfoldable pub load_parsed : Writer → Dirs → Settings → Bytes → Option J → Dirs × Settings
  unfolding load_values write load_defaults
  load_parsed w d defaults again none = (d, load_defaults again)
  load_parsed w d defaults again (some json) = elim (load_values json defaults) [
    | none ↦ (d, load_defaults again)
    | some s ↦ (if lib.has_key json (codes "machineID") then d else write w d s, s)
  ]

  unfoldable pub load : Writer → Dirs → Bytes → Bytes → Dirs × Settings
  unfolding load_parsed write load_defaults
  load w d machine_id again = elim (settings_file d) [
    | none ↦ (write w d (load_defaults machine_id), load_defaults machine_id)
    | some bytes ↦
        if is_empty bytes
        then (d, load_defaults machine_id)
        else load_parsed w d (load_defaults machine_id) again (lib.parse bytes)
  ]

  -- Get, with what a write answers and the random machine ids.
  unfoldable pub get : Writer → AppSettings → Bytes → Bytes → AppSettings × Settings
  unfolding load
  get w a machine_id again =
      if not (is_empty a.cache.machine_id)
      then (a, a.cache)
      else let (d, s) = load w a.dirs machine_id again in (record { cache = s; dirs = d }, s)

  unfoldable pub save : Writer → AppSettings → Settings → AppSettings
  unfolding write
  save w a s = record { cache = s; dirs = write w a.dirs s }

  unfoldable pub set_installed_version :
      Writer → AppSettings → Bytes → Bytes → Bytes → Bool → AppSettings
  unfolding get save
  set_installed_version w a machine_id again version is_installed =
      let (b, s) = get w a machine_id again in
      save w b (record s { installed_version = if is_installed then version else [] })
