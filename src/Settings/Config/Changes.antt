-- ===== src/Settings/Config/Changes.antt =====
-- What `pulseunlock config set` changes, and that numbers are printed as they are read.
use pcbu_desktop.Base.{
  ℕ, zero, suc, ◌+◌, ◌-◌, ◌*◌, ◌/◌, ◌%◌, ◌^◌, ◌<◌, ◌≤◌, ◌≡◌, refl, ◌⊎◌, inl, inr, Bool, true, false,
  not, ◌&&◌, [], ◌∷◌, Option, none, some, ◌==◌, ltb, leb, Bytes, codes, str_eq, is_empty,
  Bool-cases, Option-cases, All, lt→ltb, arith,
}
use pcbu_desktop.Device.{udp}
use pcbu_desktop.Storage.{JsonLib, Storage, Disk, get_devices}
use pcbu_desktop.Storage.RoundTrip.{IsJson, IsStorable}
use pcbu_desktop.Storage.Devices.{IsWritten, Works}
use pcbu_desktop.Settings.{Settings}
use pcbu_desktop.Settings.Config.Numbers.{IsDecimal, parse_number-IsDecimal}
use pcbu_desktop.Settings.Config.Udp.{
  without_method, without_udp, has_udp, IsLeft, has_udp_devices-has_udp,
  without_udp_devices-without_udp,
}
use pcbu_desktop.Settings.Config.{
  ConfigKey, machine_id, installed_version, language, server_ip, server_mac, pairing_discovery_port,
  pairing_server_port, unlock_server_port, client_socket_timeout, client_connect_timeout,
  client_connect_retries, digits, to_string, read_decimal, parse_number, get_config_value, Terminal,
  Change, changed, invalid_argument, failed, is_one_of, languages, with_number, has_udp_devices,
  move_port, set_config_value,
}

abbrev limit : ℕ → ℕ
limit zero = 1
limit (suc fuel) = 10 * limit fuel

read_decimal-digit :
    (acc d : ℕ) (rest : Bytes)
    → d < 10
    → read_decimal acc ((b'0' + d) ∷ rest) ≡ read_decimal (acc * 10 + d) rest
unfolding read_decimal
read_decimal-digit acc d rest h =
    let low : leb b'0' (b'0' + d) ≡ true = ground arith in
    let high : leb (b'0' + d) b'9' ≡ true = ground arith in
    let value : acc * 10 + (b'0' + d - b'0') ≡ acc * 10 + d = omega arith in
    rw (low, high, value) refl

read_decimal-digits :
    (fuel n : ℕ) (rest : Bytes)
    → n < limit fuel
    → read_decimal 0 (digits fuel n rest) ≡ read_decimal n rest
unfolding digits
read_decimal-digits zero n rest h = let e : n ≡ 0 = omega arith in rw e refl
read_decimal-digits (suc fuel) n rest h = elim (Bool-cases (ltb n 10)) [
  | inl last ↦
      rw (last, read_decimal-digit 0 n rest (ground arith))
        (let e : 0 * 10 + n ≡ n = omega arith in rw e refl)
  | inr more ↦
      let e : n / 10 * 10 + n % 10 ≡ n = omega arith in
      rw
        (
          more,
          read_decimal-digits fuel (n / 10) ((b'0' + n % 10) ∷ rest) (omega arith),
          read_decimal-digit (n / 10) (n % 10) rest (omega arith),
          e,
        )
        refl
]

digits-filled : (fuel n c : ℕ) (rest : Bytes) → is_empty (digits fuel n (c ∷ rest)) ≡ false
unfolding digits
digits-filled zero n c rest = refl
digits-filled (suc fuel) n c rest = elim (Bool-cases (ltb n 10)) [
  | inl last ↦ rw last refl
  | inr more ↦ rw more (digits-filled fuel (n / 10) (b'0' + n % 10) (c ∷ rest))
]

to_string-filled : (n : ℕ) → is_empty (to_string n) ≡ false
unfolding to_string digits
to_string-filled n = elim (Bool-cases (ltb n 10)) [
  | inl last ↦ rw last refl
  | inr more ↦ rw more (digits-filled 9 (n / 10) (b'0' + n % 10) [])
]

-- A number is read back from the text that it is printed as.
pub parse_number-to_string :
    (bits n : ℕ) → n < 2 ^ bits → n < 2 ^ 32 → parse_number bits (to_string n) ≡ some n
unfolding parse_number to_string
parse_number-to_string bits n h word =
    rw (to_string-filled n, read_decimal-digits 10 n [] (omega arith), read_decimal)
      (rw (lt→ltb n (2 ^ bits) h) refl)

-- The bits of a key's number, or a text; the first two keys are texts that are not set.
abbrev pub bits_of : ConfigKey → Option ℕ
bits_of pairing_discovery_port = some 16
bits_of pairing_server_port = some 16
bits_of unlock_server_port = some 16
bits_of client_socket_timeout = some 32
bits_of client_connect_timeout = some 32
bits_of client_connect_retries = some 32
bits_of _ = none

-- What is shown for a value that was set.
abbrev pub IsShownAs : Option ℕ → Bytes → Bytes → Type 0
IsShownAs none value shown = shown ≡ value
IsShownAs (some bits) value shown = (n : ℕ) × IsDecimal value n × (n < 2 ^ bits) × IsDecimal shown n

shows_number :
    (bits : ℕ) (value : Bytes) (n : ℕ)
    → 2 ^ bits ≤ 2 ^ 32
    → parse_number bits value ≡ some n
    → IsShownAs (some bits) value (to_string n)
shows_number bits value n word e =
    let (numeral, fits) = parse_number-IsDecimal bits value n e in
    let again = parse_number-to_string bits n fits (omega (arith, fits, word)) in
    (n, numeral, fits, (parse_number-IsDecimal bits (to_string n) n again).0)

-- The settings without what a key stands for; an IP address takes the MAC address with it.
abbrev pub erase : ConfigKey → Settings → Settings
erase machine_id s = record s { machine_id = [] }
erase installed_version s = record s { installed_version = [] }
erase language s = record s { language = [] }
erase server_ip s = record s { server_ip = []; server_mac = [] }
erase server_mac s = record s { server_mac = [] }
erase pairing_discovery_port s = record s { pairing_discovery_port = 0 }
erase pairing_server_port s = record s { pairing_server_port = 0 }
erase unlock_server_port s = record s { unlock_server_port = 0 }
erase client_socket_timeout s = record s { client_socket_timeout = 0 }
erase client_connect_timeout s = record s { client_connect_timeout = 0 }
erase client_connect_retries s = record s { client_connect_retries = 0 }

abbrev pub IsConfirmed : Terminal → Type 0
IsConfirmed t = (t.has_yes ≡ true) ⊎ ((t.is_interactive ≡ true) × (t.confirms ≡ true))

same_port : (n : ℕ) (b : Bool) → (not (n == n) && b) ≡ false
same_port n b = ground arith

module _ {J : Type 0} (lib : JsonLib J) (laws : IsJson lib) (disk : Disk) (works : Works disk)
    (t : Terminal) (s : Settings) (st : Storage)
    (half : IsWritten lib (without_method udp (get_devices lib st).1))
    (rest : IsWritten lib (without_udp (get_devices lib st).1))
    (storable : All IsStorable (get_devices lib st).1) where
  -- The devices are left as they are, or those over UDP are removed, for this process and for one that reads the
  -- file anew, which the user has confirmed.
  abbrev pub AreDevices : Storage → Bool → Type 0
  AreDevices st' true = IsConfirmed t × IsLeft lib st' (without_udp (get_devices lib st).1)
  AreDevices st' false = (get_devices lib st').1 ≡ (get_devices lib st).1

  abbrev pub moves_port : Settings → Bool
  moves_port s' =
      not (s'.unlock_server_port == s.unlock_server_port) && has_udp (get_devices lib st).1

  abbrev pub IsApplied : ConfigKey → Bytes → Change → Type 0
  IsApplied key value (changed s' st') =
      IsShownAs (bits_of key) value (get_config_value s' key)
      × (erase key s' ≡ erase key s)
      × AreDevices st' (moves_port s')
  IsApplied key value invalid_argument = Unit
  IsApplied key value failed = t.confirms ≡ false

  with_number-IsApplied :
      (key : ConfigKey) (bits : ℕ) (value : Bytes) (next : ℕ → Change)
      → ((n : ℕ) → parse_number bits value ≡ some n → IsApplied key value (next n))
      → IsApplied key value (with_number (parse_number bits value) next)
  with_number-IsApplied key bits value next h = elim (Option-cases (parse_number bits value)) [
    | inl e ↦ rw (e, IsApplied) tt
    | inr (n, e) ↦ rw (e, IsApplied) (h n e)
  ]

  unmoved :
      (s' : Settings) → s'.unlock_server_port ≡ s.unlock_server_port → AreDevices st (moves_port s')
  unmoved s' e =
      rw (e, same_port s.unlock_server_port (has_udp (get_devices lib st).1), AreDevices) refl

  move_port-IsApplied :
      (value : Bytes) (n : ℕ)
      → parse_number 16 value ≡ some n
      → IsApplied unlock_server_port value (move_port lib disk t s n (has_udp_devices lib disk st))
  unfolding move_port get_config_value
  move_port-IsApplied value n e =
      let shown = shows_number 16 value n (omega arith) e in
      let kept = has_udp_devices-has_udp lib disk st in
      let gone = without_udp_devices-without_udp lib disk st laws works half rest storable in
      let moving = not (n == s.unlock_server_port) && has_udp (get_devices lib st).1 in
      rw (kept.0) (elim (Bool-cases moving) [
        | inr stays ↦ rw (stays, IsApplied, AreDevices) (rw stays (shown, refl, kept.1))
        | inl moves ↦ elim (Bool-cases t.has_yes) [
          | inl told ↦ rw (moves, told, IsApplied) (rw moves (shown, refl, (inl told, gone)))
          | inr asks ↦ elim (Bool-cases t.is_interactive) [
            | inr alone ↦ rw (moves, asks, alone, IsApplied) tt
            | inl there ↦ elim (Bool-cases t.confirms) [
              | inr refuses ↦ rw (moves, asks, there, refuses, IsApplied) refuses
              | inl agrees ↦
                  rw (moves, asks, there, agrees, IsApplied)
                    (rw moves (shown, refl, (inr (there, agrees), gone)))
            ]
          ]
        ]
      ])

  -- `config set` either changes the one setting, so that `config get` shows the value, or decimal
  -- digits for the same number, which fits the setting, and changes no other setting but the MAC address of an IP address; or it changes nothing, and
  -- is refused. If there are devices over UDP and the unlock port changes, exactly these, with both methods,
  -- are removed, for this process and for one that reads the file anew, and the user has confirmed it; else
  -- the devices stay. The disk and the JSON library work for the devices that such a removal writes, and the
  -- devices fit the file.
  pub set_config_value-IsApplied :
      (key : ConfigKey) (value : Bytes)
      → IsApplied key value (set_config_value lib disk t s st key value)
  unfolding set_config_value get_config_value
  set_config_value-IsApplied machine_id value = tt
  set_config_value-IsApplied installed_version value = tt
  set_config_value-IsApplied language value = elim (Bool-cases (is_one_of languages value)) [
    | inl known ↦ rw (known, IsApplied) (refl, refl, unmoved (record s { language = value }) refl)
    | inr other ↦ rw (other, IsApplied) tt
  ]
  set_config_value-IsApplied server_ip value = elim (Bool-cases (is_empty value)) [
    | inl nothing ↦ rw (nothing, IsApplied) tt
    | inr some_text ↦ elim (Bool-cases (str_eq value (codes "auto"))) [
      | inl auto ↦
          rw (some_text, auto, IsApplied)
            (refl, refl, unmoved (record s { server_ip = value }) refl)
      | inr address ↦
          rw (some_text, address, IsApplied)
            (refl, refl, unmoved (record s { server_ip = value; server_mac = [] }) refl)
    ]
  ]
  set_config_value-IsApplied server_mac value = elim (Bool-cases (is_one_of t.macs value)) [
    | inl known ↦ rw (known, IsApplied) (refl, refl, unmoved (record s { server_mac = value }) refl)
    | inr other ↦ rw (other, IsApplied) tt
  ]
  set_config_value-IsApplied pairing_discovery_port value =
      with_number-IsApplied pairing_discovery_port 16 value _ (λ n e. (
        shows_number 16 value n (omega arith) e,
        refl,
        unmoved (record s { pairing_discovery_port = n }) refl,
      ))
  set_config_value-IsApplied pairing_server_port value =
      with_number-IsApplied pairing_server_port 16 value _ (λ n e. (
        shows_number 16 value n (omega arith) e,
        refl,
        unmoved (record s { pairing_server_port = n }) refl,
      ))
  set_config_value-IsApplied unlock_server_port value =
      with_number-IsApplied unlock_server_port 16 value _ (λ n e. move_port-IsApplied value n e)
  set_config_value-IsApplied client_socket_timeout value =
      with_number-IsApplied client_socket_timeout 32 value _ (λ n e. (
        shows_number 32 value n (omega arith) e,
        refl,
        unmoved (record s { client_socket_timeout = n }) refl,
      ))
  set_config_value-IsApplied client_connect_timeout value =
      with_number-IsApplied client_connect_timeout 32 value _ (λ n e. (
        shows_number 32 value n (omega arith) e,
        refl,
        unmoved (record s { client_connect_timeout = n }) refl,
      ))
  set_config_value-IsApplied client_connect_retries value =
      with_number-IsApplied client_connect_retries 32 value _ (λ n e. (
        shows_number 32 value n (omega arith) e,
        refl,
        unmoved (record s { client_connect_retries = n }) refl,
      ))
