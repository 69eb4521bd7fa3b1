-- ===== src/Settings/Saved.antt =====
-- Settings that are saved are read again.
use pcbu_desktop.Base.{
  ℕ, ◌^◌, ◌<◌, ◌≡◌, refl, ap, true, false, Bool, List, none, some, Bytes, codes, str_eq, is_empty,
  Bool-cases, inl, inr,
}
use pcbu_desktop.Storage.RoundTrip.{find_field}
use pcbu_desktop.Settings.{
  Settings, ValueLib, Dirs, AppSettings, Writer, settings_fields, settings_file, is_there,
  uses_old_dir, write_file, write, load_values, load_parsed, load, load_defaults, get, save,
  invalidate_cache,
}

-- What the JSON library documents of `value`: the value of a key, converted, or the default.
pub record IsValueJson {J : Type 0} (lib : ValueLib J) : Type 0 where
  pub text_object :
      (fields : List (Bytes × J)) (key default t : Bytes)
      → find_field fields key ≡ some (lib.text t)
      → lib.value_text (lib.object fields) key default ≡ some t
  pub text_missing :
      (fields : List (Bytes × J)) (key default : Bytes)
      → find_field fields key ≡ none
      → lib.value_text (lib.object fields) key default ≡ some default
  pub number_object :
      (w : ℕ) (fields : List (Bytes × J)) (key : Bytes) (default n : ℕ)
      → n < 2 ^ w
      → find_field fields key ≡ some (lib.number n)
      → lib.value_number w (lib.object fields) key default ≡ some n
  pub flag_object :
      (fields : List (Bytes × J)) (key : Bytes) (default b : Bool)
      → find_field fields key ≡ some (lib.flag b)
      → lib.value_flag (lib.object fields) key default ≡ some b
  pub has_key_object :
      (fields : List (Bytes × J)) (key : Bytes) {j : J}
      → find_field fields key ≡ some j
      → lib.has_key (lib.object fields) key ≡ true

-- The numbers fit their types.
abbrev pub Fits : Settings → Type 0
Fits s =
    (s.pairing_discovery_port < 2 ^ 16)
    × (s.pairing_server_port < 2 ^ 16)
    × (s.unlock_server_port < 2 ^ 16)
    × (s.client_socket_timeout < 2 ^ 32)
    × (s.client_connect_timeout < 2 ^ 32)
    × (s.client_connect_retries < 2 ^ 32)

settings_file-write_file :
    (w : Writer) (d : Dirs) (bytes : Bytes)
    → w.writes ≡ true
    → settings_file (write_file w d bytes) ≡ some bytes
unfolding write_file uses_old_dir
settings_file-write_file w d bytes h = elim (Bool-cases (is_there d.new_file)) [
  | inl newer ↦ rw (h, newer) refl
  | inr gone ↦ elim (Bool-cases (is_there d.old_file)) [
    | inl older ↦ rw (h, gone, older) (rw gone refl)
    | inr fresh ↦ rw (h, gone, fresh) refl
  ]
]

module _ {J : Type 0} (lib : ValueLib J) (laws : IsValueJson lib) where
  load_values-fields :
      (s defaults : Settings)
      → Fits s
      → load_values lib (lib.object (settings_fields lib s)) defaults ≡ some s
  unfolding load_values settings_fields str_eq
  load_values-fields s defaults h =
      let fields = settings_fields lib s in
      rw
        (
          laws.text_object fields (codes "machineID") defaults.machine_id s.machine_id refl,
          laws.text_object fields (codes "installedVersion") defaults.installed_version
              s.installed_version refl,
          laws.text_object fields (codes "language") defaults.language s.language refl,
          laws.text_object fields (codes "serverIP") defaults.server_ip s.server_ip refl,
          laws.text_object fields (codes "serverMAC") defaults.server_mac s.server_mac refl,
          laws.number_object 16 fields (codes "pairingDiscoveryPort")
              defaults.pairing_discovery_port s.pairing_discovery_port h.0 refl,
          laws.number_object 16 fields (codes "pairingServerPort") defaults.pairing_server_port
              s.pairing_server_port h.1 refl,
          laws.number_object 16 fields (codes "unlockServerPort") defaults.unlock_server_port
              s.unlock_server_port h.2 refl,
          laws.number_object 32 fields (codes "clientSocketTimeout") defaults.client_socket_timeout
              s.client_socket_timeout h.3 refl,
          laws.number_object 32 fields (codes "clientConnectTimeout")
              defaults.client_connect_timeout s.client_connect_timeout h.4 refl,
          laws.number_object 32 fields (codes "clientConnectRetries")
              defaults.client_connect_retries s.client_connect_retries h.5 refl,
          laws.text_missing fields (codes "winUnlockBehavior") defaults.unlock_behavior refl,
          laws.text_object fields (codes "unlockBehavior") defaults.unlock_behavior
              s.unlock_behavior refl,
          laws.flag_object fields (codes "winHidePasswordField") defaults.win_hide_password_field
              s.win_hide_password_field refl,
          laws.flag_object fields (codes "winForceDefaultCredProv")
              defaults.win_force_default_cred_prov s.win_force_default_cred_prov refl,
          laws.flag_object fields (codes "unixSetPasswordPAM") defaults.unix_set_password_pam
              s.unix_set_password_pam refl,
          laws.flag_object fields (codes "macLoginScreen") defaults.mac_login_screen
              s.mac_login_screen refl,
        )
        refl

  -- What is written is read back, where the JSON library reads what it writes.
  load-write :
      (w : Writer) (d : Dirs) (s : Settings) (bytes machine_id again : Bytes)
      → Fits s
      → w.writes ≡ true
      → lib.dump (lib.object (settings_fields lib s)) ≡ some bytes
      → lib.parse bytes ≡ some (lib.object (settings_fields lib s))
      → is_empty bytes ≡ false
      → load lib w (write lib w d s) machine_id again ≡ (write lib w d s, s)
  unfolding load load_parsed settings_fields str_eq
  load-write w d s bytes machine_id again h works dumps parses filled =
      let written : write lib w d s ≡ write_file w d bytes = rw (dumps, write) refl in
      rw (written, settings_file-write_file w d bytes works, load)
        (rw (filled, parses)
          (rw (load_values-fields s (load_defaults machine_id) h, load_parsed)
            (rw (laws.has_key_object (settings_fields lib s) (codes "machineID") refl)
              (ap (λ e. (e, s)) written))))

  -- After a save the settings are the saved ones, both for this process and for one that reads the file
  -- anew, wherever the file is. The write works, the JSON library reads the text that it writes for them,
  -- their numbers fit their types and their machine id is not empty.
  pub get-save :
      (w : Writer) (a : AppSettings) (s : Settings) (bytes machine_id again : Bytes)
      → Fits s
      → is_empty s.machine_id ≡ false
      → w.writes ≡ true
      → lib.dump (lib.object (settings_fields lib s)) ≡ some bytes
      → lib.parse bytes ≡ some (lib.object (settings_fields lib s))
      → is_empty bytes ≡ false
      → ((get lib w (save lib w a s) machine_id again).1 ≡ s)
        × ((get lib w (invalidate_cache (save lib w a s)) machine_id again).1 ≡ s)
  unfolding get save invalidate_cache
  get-save w a s bytes machine_id again h named works dumps parses filled = (
    rw named refl,
    rw (load-write w a.dirs s bytes machine_id again h works dumps parses filled) refl,
  )
