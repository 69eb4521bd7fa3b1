-- ===== src/Storage.antt =====
-- The paired devices on disk: common/src/storage/PairedDevicesStorage.cpp, on Linux.
--
-- The JSON library is the interface `JsonLib`, whose functions give `none` where it throws. Each operation
-- that holds the mutex is one step. The answers of the shell's functions that write are arguments.

pub mod RoundTrip
pub mod Devices
pub mod Value
pub mod Tests
use pcbu_desktop.Base.{
  ℕ, Bool, true, false, not, ◌&&◌, ◌||◌, List, [], ◌∷◌, ◌++◌, Option, none, some, map,
  if◌then◌else◌, Bytes, codes, str_eq, is_empty, keep,
}
use pcbu_desktop.Device.{
  PairingMethod, tcp, bluetooth, cloud, udp, manual_udp, method_to_string, method_from_string,
  SshServer, PairedDevice,
}

-- `items` is what a range-based for loop visits; `get` is `json[key]`, `value_or` is `json.value(key, default)`,
-- and `to_text` and `to_port` are the conversions to a text and to a number of 16 bits.
pub record JsonLib (J : Type 0) : Type 0 where
  pub null : J
  pub text : Bytes → J
  pub number : ℕ → J
  pub array : List J → J
  pub object : List (Bytes × J) → J
  pub parse : Bytes → Option J
  pub dump : J → Option Bytes
  pub items : J → List J
  pub get : J → Bytes → Option J
  pub has_key : J → Bytes → Bool
  pub value_or : J → Bytes → Bytes → Option Bytes
  pub is_array : J → Bool
  pub is_object : J → Bool
  pub to_text : J → Option Bytes
  pub to_port : J → Option ℕ

abbrev pub same_method : PairingMethod → PairingMethod → Bool
same_method tcp tcp = true
same_method bluetooth bluetooth = true
same_method cloud cloud = true
same_method udp udp = true
same_method manual_udp manual_udp = true
same_method _ _ = false

-- The cache and the bytes of the file.
pub record Storage : Type 0 where
  pub cache : List PairedDevice
  pub file : Bytes

-- What the shell answers: whether the file is there, or is created, and whether it is written. A write
-- that fails leaves `garbage`.
pub record Disk : Type 0 where
  pub has_file : Bool
  pub creates : Bool
  pub writes : Bool
  pub garbage : Bytes

unfoldable pub find_device : List PairedDevice → Bytes → Option PairedDevice
unfolding str_eq
find_device [] id = none
find_device (d ∷ ds) id = if str_eq d.id id then some d else find_device ds id

abbrev pub without_id : Bytes → List PairedDevice → List PairedDevice
without_id id devices = keep (λ d. not (str_eq d.id id)) devices

unfoldable pub invalidate_cache : Storage → Storage
invalidate_cache s = record s { cache = [] }

abbrev pub has_method : PairingMethod → PairedDevice → Bool
has_method method d = same_method d.pairing_method method

module _ {J : Type 0} (lib : JsonLib J) where
  unfoldable pub get_text : J → Bytes → Option Bytes
  get_text entry key = elim (lib.get entry key) [ none ↦ none | some j ↦ lib.to_text j ]

  unfoldable pub get_port : J → Bytes → Option ℕ
  get_port entry key = elim (lib.get entry key) [ none ↦ none | some j ↦ lib.to_port j ]

  -- One pass of the loop over the SSH servers: `none` where the library throws, `some none` where the
  -- entry is skipped.
  unfoldable pub load_ssh_server : J → Option (Option SshServer)
  load_ssh_server entry =
      if not (lib.is_object entry) then some none else elim (lib.value_or entry (codes "host") []) [
        | none ↦ none
        | some host ↦ elim (lib.value_or entry (codes "user") []) [
          | none ↦ none
          | some user ↦ elim (lib.value_or entry (codes "keyPath") []) [
            | none ↦ none
            | some key_path ↦ elim (lib.value_or entry (codes "passwordEnc") []) [
              | none ↦ none
              | some password_enc ↦
                  if is_empty host && is_empty key_path
                  then some none
                  else some (
                      some (record {
                        host = host;
                        user = user;
                        key_path = key_path;
                        password_enc = password_enc;
                      }))
            ]
          ]
        ]
      ]

  unfoldable pub load_ssh_servers : List J → Option (List SshServer)
  unfolding load_ssh_server
  load_ssh_servers [] = some []
  load_ssh_servers (entry ∷ rest) = elim (load_ssh_server entry) [
    | none ↦ none
    | some server ↦ elim (load_ssh_servers rest) [
      | none ↦ none
      | some servers ↦ some (elim server [ none ↦ servers | some s ↦ s ∷ servers ])
    ]
  ]

  unfoldable pub load_device_servers : J → Option (List SshServer)
  unfolding load_ssh_servers
  load_device_servers entry =
      if lib.has_key entry (codes "sshServers")
      then elim (lib.get entry (codes "sshServers")) [
        | none ↦ none
        | some servers ↦
            if lib.is_array servers then load_ssh_servers (lib.items servers) else some []
      ]
      else some []

  -- One pass of Load's loop over the entries: `none` where the entry is skipped as invalid.
  unfoldable pub load_device : J → Option PairedDevice
  unfolding get_text get_port load_device_servers method_from_string
  load_device entry = elim (get_text entry (codes "id")) [
    | none ↦ none
    | some id ↦ elim (get_text entry (codes "pairingMethod")) [
      | none ↦ none
      | some method ↦ elim (get_text entry (codes "deviceName")) [
        | none ↦ none
        | some device_name ↦ elim (get_text entry (codes "userName")) [
          | none ↦ none
          | some user_name ↦ elim (get_text entry (codes "passwordEnc")) [
            | none ↦ none
            | some password_enc ↦ elim (get_text entry (codes "encryptionKey")) [
              | none ↦ none
              | some encryption_key ↦ elim (get_text entry (codes "ipAddress")) [
                | none ↦ none
                | some ip_address ↦ elim (get_text entry (codes "bluetoothAddress")) [
                  | none ↦ none
                  | some bluetooth_address ↦ elim (get_text entry (codes "cloudToken")) [
                    | none ↦ none
                    | some cloud_token ↦ elim (get_port entry (codes "tcpPort")) [
                      | none ↦ none
                      | some tcp_port ↦ elim (get_port entry (codes "udpPort")) [
                        | none ↦ none
                        | some udp_port ↦ elim (get_port entry (codes "udpManualPort")) [
                          | none ↦ none
                          | some udp_manual_port ↦ elim (load_device_servers entry) [
                            | none ↦ none
                            | some ssh_servers ↦ some (record {
                              id = id;
                              pairing_method = method_from_string method;
                              device_name = device_name;
                              user_name = user_name;
                              password_enc = password_enc;
                              encryption_key = encryption_key;
                              ip_address = ip_address;
                              tcp_port = tcp_port;
                              udp_port = udp_port;
                              udp_manual_port = udp_manual_port;
                              bluetooth_address = bluetooth_address;
                              cloud_token = cloud_token;
                              ssh_servers = ssh_servers;
                            })
                          ]
                        ]
                      ]
                    ]
                  ]
                ]
              ]
            ]
          ]
        ]
      ]
    ]
  ]

  unfoldable pub load_devices : List J → List PairedDevice
  unfolding load_device
  load_devices [] = []
  load_devices (entry ∷ rest) = elim (load_device entry) [
    | none ↦ load_devices rest
    | some device ↦ device ∷ load_devices rest
  ]

  -- Load: `file` is what ReadBytes gives, which is empty for a missing file.
  unfoldable pub load : Bytes → List PairedDevice
  unfolding load_devices
  load file =
      if is_empty file
      then []
      else elim (lib.parse file) [ none ↦ [] | some json ↦ load_devices (lib.items json) ]

  unfoldable pub ssh_server_json : SshServer → J
  ssh_server_json s = lib.object (
      (codes "host", lib.text s.host)
      ∷ (codes "user", lib.text s.user)
      ∷ (codes "keyPath", lib.text s.key_path)
      ∷ (codes "passwordEnc", lib.text s.password_enc)
      ∷ [])

  unfoldable pub device_fields : PairedDevice → List (Bytes × J)
  unfolding ssh_server_json method_to_string
  device_fields d =
      (codes "id", lib.text d.id)
      ∷ (codes "pairingMethod", lib.text (method_to_string d.pairing_method))
      ∷ (codes "deviceName", lib.text d.device_name)
      ∷ (codes "userName", lib.text d.user_name)
      ∷ (codes "passwordEnc", lib.text d.password_enc)
      ∷ (codes "encryptionKey", lib.text d.encryption_key)
      ∷ (codes "ipAddress", lib.text d.ip_address)
      ∷ (codes "tcpPort", lib.number d.tcp_port)
      ∷ (codes "udpPort", lib.number d.udp_port)
      ∷ (codes "udpManualPort", lib.number d.udp_manual_port)
      ∷ (codes "bluetoothAddress", lib.text d.bluetooth_address)
      ∷ (codes "cloudToken", lib.text d.cloud_token)
      ∷ (codes "sshServers", lib.array (map ssh_server_json d.ssh_servers))
      ∷ []

  abbrev pub device_json : PairedDevice → J
  device_json d = lib.object (device_fields d)

  -- `emplace_back` on a fresh value: it is null for no device, and an array else.
  unfoldable pub devices_json : List PairedDevice → J
  unfolding device_fields
  devices_json [] = lib.null
  devices_json (d ∷ ds) = lib.array (map device_json (d ∷ ds))

  unfoldable pub save_devices : Storage → Disk → List PairedDevice → Storage
  unfolding devices_json
  save_devices s disk devices =
      if not disk.has_file && not disk.creates then s else elim (lib.dump (devices_json devices)) [
        | none ↦ s
        | some bytes ↦
            if disk.writes
            then record { cache = devices; file = bytes }
            else record s { file = disk.garbage }
      ]

  unfoldable pub get_devices : Storage → Storage × List PairedDevice
  unfolding load
  get_devices s =
      if not (is_empty s.cache)
      then (s, s.cache)
      else (record s { cache = load s.file }, load s.file)

  unfoldable pub get_device_by_id : Storage → Bytes → Storage × Option PairedDevice
  unfolding get_devices find_device
  get_device_by_id s id = let (t, devices) = get_devices s in (t, find_device devices id)

  unfoldable pub get_devices_for_user : Storage → Bytes → Storage × List PairedDevice
  unfolding get_devices str_eq
  get_devices_for_user s user =
      let (t, devices) = get_devices s in (t, keep (λ d. str_eq d.user_name user) devices)

  unfoldable pub add_device : Storage → Disk → PairedDevice → Storage
  unfolding get_devices save_devices
  add_device s disk device =
      let (t, devices) = get_devices s in
      save_devices t disk (without_id device.id devices ++ (device ∷ []))

  unfoldable pub remove_device : Storage → Disk → Bytes → Storage
  unfolding get_devices save_devices
  remove_device s disk id =
      let (t, devices) = get_devices s in save_devices t disk (without_id id devices)

  unfoldable pub has_devices_with_method : Storage → PairingMethod → Storage × Bool
  unfolding get_devices
  has_devices_with_method s method =
      let (t, devices) = get_devices s in (t, not (is_empty (keep (has_method method) devices)))

  unfoldable pub remove_devices_with_method : Storage → Disk → PairingMethod → Storage
  unfolding get_devices save_devices
  remove_devices_with_method s disk method =
      let (t, devices) = get_devices s in
      save_devices t disk (keep (λ d. not (has_method method d)) devices)
