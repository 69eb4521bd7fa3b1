-- ===== src/Settings/Config.antt =====
-- `pulseunlock config`: GetConfigValue, SetConfigValue and ParseNumber of cli/src/commands/SettingsCommands.cpp.
--
-- The keys are a data type, which the texts are read as. What the terminal and the network answer is a
-- record of values.
pub mod Changes
pub mod Udp
pub mod Numbers
use pcbu_desktop.Base.{
  ℕ, zero, suc, ◌+◌, ◌-◌, ◌*◌, ◌/◌, ◌%◌, ◌^◌, Bool, true, false, not, ◌&&◌, ◌||◌, List, [], ◌∷◌,
  ◌++◌, Option, none, some, ◌==◌, ltb, leb, if◌then◌else◌, Bytes, codes, str_eq, is_empty,
}
use pcbu_desktop.Device.{PairingMethod, udp, manual_udp}
use pcbu_desktop.Storage.{
  JsonLib, Storage, Disk, has_devices_with_method, remove_devices_with_method,
}
use pcbu_desktop.Settings.{Settings}

pub data ConfigKey : Type 0 where
  machine_id installed_version language server_ip server_mac : ConfigKey
  pairing_discovery_port pairing_server_port unlock_server_port : ConfigKey
  client_socket_timeout client_connect_timeout client_connect_retries : ConfigKey

-- `none` for an unknown key.
unfoldable pub config_key : Bytes → Option ConfigKey
unfolding str_eq
config_key key =
    if str_eq key (codes "machineID")
    then some machine_id
    else if str_eq key (codes "installedVersion")
    then some installed_version
    else if str_eq key (codes "language")
    then some language
    else if str_eq key (codes "serverIP")
    then some server_ip
    else if str_eq key (codes "serverMAC")
    then some server_mac
    else if str_eq key (codes "pairingDiscoveryPort")
    then some pairing_discovery_port
    else if str_eq key (codes "pairingServerPort")
    then some pairing_server_port
    else if str_eq key (codes "unlockServerPort")
    then some unlock_server_port
    else if str_eq key (codes "clientSocketTimeout")
    then some client_socket_timeout
    else if str_eq key (codes "clientConnectTimeout")
    then some client_connect_timeout
    else if str_eq key (codes "clientConnectRetries")
    then some client_connect_retries
    else none

-- The decimal digits of a number in front of a text, with fuel for as many as it has.
unfoldable pub digits : ℕ → ℕ → Bytes → Bytes
digits zero n rest = rest
digits (suc fuel) n rest =
    let more = digits fuel (n / 10) ((b'0' + n % 10) ∷ rest) in
    if ltb n 10 then (b'0' + n) ∷ rest else more

-- `std::to_string` of a number of at most 32 bits, which has at most 10 digits.
unfoldable pub to_string : ℕ → Bytes
unfolding digits
to_string n = digits 10 n []

-- The digits of a text, read on from a value: `none` if another byte is in it.
unfoldable pub read_decimal : ℕ → Bytes → Option ℕ
read_decimal acc [] = some acc
read_decimal acc (c ∷ cs) =
    let rest = read_decimal (acc * 10 + (c - b'0')) cs in
    if leb b'0' c && leb c b'9' then rest else none

abbrev pub fitting : ℕ → Option ℕ → Option ℕ
fitting bits none = none
fitting bits (some n) = if ltb n (2 ^ bits) then some n else none

-- ParseNumber for a type of some bits.
unfoldable pub parse_number : ℕ → Bytes → Option ℕ
unfolding read_decimal
parse_number bits value = if is_empty value then none else fitting bits (read_decimal 0 value)

unfoldable pub get_config_value : Settings → ConfigKey → Bytes
unfolding to_string
get_config_value s machine_id = s.machine_id
get_config_value s installed_version = s.installed_version
get_config_value s language = s.language
get_config_value s server_ip = s.server_ip
get_config_value s server_mac = s.server_mac
get_config_value s pairing_discovery_port = to_string s.pairing_discovery_port
get_config_value s pairing_server_port = to_string s.pairing_server_port
get_config_value s unlock_server_port = to_string s.unlock_server_port
get_config_value s client_socket_timeout = to_string s.client_socket_timeout
get_config_value s client_connect_timeout = to_string s.client_connect_timeout
get_config_value s client_connect_retries = to_string s.client_connect_retries

-- The MAC addresses of the interfaces, whether `--yes` or `-y` is there, and the terminal.
pub record Terminal : Type 0 where
  pub macs : List Bytes
  pub has_yes : Bool
  pub is_interactive : Bool
  pub confirms : Bool

-- The settings and the paired devices, or one of the two kinds of exceptions.
pub data Change : Type 0 where
  changed : Settings → Storage → Change
  invalid_argument failed : Change

unfoldable pub is_one_of : List Bytes → Bytes → Bool
unfolding str_eq
is_one_of [] value = false
is_one_of (x ∷ xs) value = str_eq x value || is_one_of xs value

abbrev pub languages : List Bytes
languages =
    codes "auto" ∷ codes "en" ∷ codes "de" ∷ codes "zh_CN" ∷ codes "pt_PT" ∷ codes "pt_BR" ∷ []

-- What is done with a number that may not parse.
abbrev pub with_number : Option ℕ → (ℕ → Change) → Change
with_number none next = invalid_argument
with_number (some n) next = next n

module _ {J : Type 0} (lib : JsonLib J) (disk : Disk) where
  unfoldable pub has_udp_devices : Storage → Storage × Bool
  unfolding has_devices_with_method
  has_udp_devices st =
      let (seen, has_udp) = has_devices_with_method lib st udp in
      let later = has_devices_with_method lib seen manual_udp in
      if has_udp then (seen, true) else later

  unfoldable pub without_udp_devices : Storage → Storage
  unfolding remove_devices_with_method
  without_udp_devices st =
      remove_devices_with_method lib (remove_devices_with_method lib st disk udp) disk manual_udp

  -- The branch of the unlock server's port, with whether there are devices that use it.
  unfoldable pub move_port : Terminal → Settings → ℕ → Storage × Bool → Change
  unfolding without_udp_devices
  move_port t s port (st, has_devices) =
      let moved = record s { unlock_server_port = port } in
      if not (port == s.unlock_server_port) && has_devices
      then (if t.has_yes
          then changed moved (without_udp_devices st)
          else if not t.is_interactive
          then invalid_argument
          else if not t.confirms
          then failed
          else changed moved (without_udp_devices st))
      else changed moved st

  unfoldable pub set_config_value : Terminal → Settings → Storage → ConfigKey → Bytes → Change
  unfolding is_one_of parse_number move_port has_udp_devices str_eq
  set_config_value t s st language value =
      if is_one_of languages value
      then changed (record s { language = value }) st
      else invalid_argument
  set_config_value t s st server_ip value =
      if is_empty value
      then invalid_argument
      else if str_eq value (codes "auto")
      then changed (record s { server_ip = value }) st
      else changed (record s { server_ip = value; server_mac = [] }) st
  set_config_value t s st server_mac value =
      if is_one_of t.macs value
      then changed (record s { server_mac = value }) st
      else invalid_argument
  set_config_value t s st pairing_discovery_port value =
      with_number (parse_number 16 value)
        (λ n. changed (record s { pairing_discovery_port = n }) st)
  set_config_value t s st pairing_server_port value =
      with_number (parse_number 16 value) (λ n. changed (record s { pairing_server_port = n }) st)
  set_config_value t s st unlock_server_port value =
      with_number (parse_number 16 value) (λ n. move_port t s n (has_udp_devices st))
  set_config_value t s st client_socket_timeout value =
      with_number (parse_number 32 value) (λ n. changed (record s { client_socket_timeout = n }) st)
  set_config_value t s st client_connect_timeout value =
      with_number (parse_number 32 value)
        (λ n. changed (record s { client_connect_timeout = n }) st)
  set_config_value t s st client_connect_retries value =
      with_number (parse_number 32 value)
        (λ n. changed (record s { client_connect_retries = n }) st)
  set_config_value t s st machine_id value = invalid_argument
  set_config_value t s st installed_version value = invalid_argument
