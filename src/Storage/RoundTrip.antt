-- ===== src/Storage/RoundTrip.antt =====
-- What is saved is loaded again.
use pcbu_desktop.Base.{
  ℕ, ◌≡◌, ◌<◌, ◌^◌, refl, true, false, ◌&&◌, List, [], ◌∷◌, Option, none, some, map, if◌then◌else◌,
  Bytes, codes, str_eq, is_empty, All,
}
use pcbu_desktop.Device.{method_to_string, method_from_string-to_string, SshServer, PairedDevice}
use pcbu_desktop.Storage.{
  JsonLib, get_text, get_port, load_ssh_server, load_ssh_servers, load_device_servers, load_device,
  load_devices, load, ssh_server_json, device_fields, device_json, devices_json,
}

module _ {J : Type 0} where
  abbrev pub find_field : List (Bytes × J) → Bytes → Option J
  find_field [] key = none
  find_field ((k, j) ∷ rest) key = if str_eq k key then some j else find_field rest key

  abbrev pub or_null : J → Option J → J
  or_null null none = null
  or_null null (some j) = j

-- What the JSON library documents: it gives back what a value was made of.
pub record IsJson {J : Type 0} (lib : JsonLib J) : Type 0 where
  pub get_object :
      (fields : List (Bytes × J)) (key : Bytes)
      → lib.get (lib.object fields) key ≡ some (or_null lib.null (find_field fields key))
  pub has_key_object :
      (fields : List (Bytes × J)) (key : Bytes) {j : J}
      → find_field fields key ≡ some j
      → lib.has_key (lib.object fields) key ≡ true
  pub value_object :
      (fields : List (Bytes × J)) (key default : Bytes) {j : J}
      → find_field fields key ≡ some j
      → lib.value_or (lib.object fields) key default ≡ lib.to_text j
  pub to_text_text : (t : Bytes) → lib.to_text (lib.text t) ≡ some t
  pub to_port_number : (n : ℕ) → n < 2 ^ 16 → lib.to_port (lib.number n) ≡ some n
  pub items_array : (js : List J) → lib.items (lib.array js) ≡ js
  pub items_null : lib.items lib.null ≡ []
  pub is_array_array : (js : List J) → lib.is_array (lib.array js) ≡ true
  pub is_object_object : (fields : List (Bytes × J)) → lib.is_object (lib.object fields) ≡ true

-- Ports are numbers of 16 bits, and an SSH server has a host or a key path.
abbrev pub IsUsable : SshServer → Type 0
IsUsable s = (is_empty s.host && is_empty s.key_path) ≡ false

abbrev pub IsStorable : PairedDevice → Type 0
IsStorable d =
    (d.tcp_port < 2 ^ 16)
    × (d.udp_port < 2 ^ 16)
    × (d.udp_manual_port < 2 ^ 16)
    × All IsUsable d.ssh_servers

module _ {J : Type 0} (lib : JsonLib J) (laws : IsJson lib) where
  get_text-object :
      (fields : List (Bytes × J)) (key t : Bytes)
      → find_field fields key ≡ some (lib.text t)
      → get_text lib (lib.object fields) key ≡ some t
  unfolding get_text
  get_text-object fields key t e =
      rw (laws.get_object fields key, get_text) (rw e (laws.to_text_text t))

  get_port-object :
      (fields : List (Bytes × J)) (key : Bytes) (n : ℕ)
      → n < 2 ^ 16
      → find_field fields key ≡ some (lib.number n)
      → get_port lib (lib.object fields) key ≡ some n
  unfolding get_port
  get_port-object fields key n h e =
      rw (laws.get_object fields key, get_port) (rw e (laws.to_port_number n h))

  value_or-text :
      (fields : List (Bytes × J)) (key t : Bytes)
      → find_field fields key ≡ some (lib.text t)
      → lib.value_or (lib.object fields) key [] ≡ some t
  value_or-text fields key t e = rw (laws.value_object fields key [] e) (laws.to_text_text t)

  load_ssh_server-json :
      (s : SshServer) → IsUsable s → load_ssh_server lib (ssh_server_json lib s) ≡ some (some s)
  unfolding load_ssh_server ssh_server_json str_eq
  load_ssh_server-json s h =
      let fields : List (Bytes × J) =
        (codes "host", lib.text s.host)
        ∷ (codes "user", lib.text s.user)
        ∷ (codes "keyPath", lib.text s.key_path)
        ∷ (codes "passwordEnc", lib.text s.password_enc)
        ∷ [] in
      rw (laws.is_object_object fields) (
        rw (value_or-text fields (codes "host") s.host refl) (
          rw (value_or-text fields (codes "user") s.user refl) (
            rw (value_or-text fields (codes "keyPath") s.key_path refl)
              (rw (value_or-text fields (codes "passwordEnc") s.password_enc refl) (rw h)))))

  load_ssh_servers-json :
      (ss : List SshServer)
      → All IsUsable ss
      → load_ssh_servers lib (map (ssh_server_json lib) ss) ≡ some ss
  unfolding load_ssh_servers
  load_ssh_servers-json [] h = refl
  load_ssh_servers-json (s ∷ ss) h =
      rw (load_ssh_server-json s h.0, load_ssh_servers) (rw (load_ssh_servers-json ss h.1) refl)

  load_device_servers-json :
      (d : PairedDevice)
      → IsStorable d
      → load_device_servers lib (device_json lib d) ≡ some d.ssh_servers
  unfolding load_device_servers device_fields str_eq
  load_device_servers-json d h =
      let fields = device_fields lib d in
      let servers = map (ssh_server_json lib) d.ssh_servers in
      rw (laws.has_key_object fields (codes "sshServers") {j = lib.array servers} refl) (
        rw (laws.get_object fields (codes "sshServers")) (
          rw (laws.is_array_array servers, laws.items_array servers)
            (load_ssh_servers-json d.ssh_servers h.3)))

  load_device-json :
      (d : PairedDevice) → IsStorable d → load_device lib (device_json lib d) ≡ some d
  unfolding load_device device_fields str_eq
  load_device-json d h =
      let fields = device_fields lib d in
      rw (get_text-object fields (codes "id") d.id refl, load_device)
        (rw
          (
            get_text-object fields (codes "pairingMethod") (method_to_string d.pairing_method) refl,
            load_device,
          )
          (rw (get_text-object fields (codes "deviceName") d.device_name refl, load_device)
            (rw (get_text-object fields (codes "userName") d.user_name refl, load_device)
              (rw (get_text-object fields (codes "passwordEnc") d.password_enc refl, load_device)
                (rw
                  (
                    get_text-object fields (codes "encryptionKey") d.encryption_key refl,
                    load_device,
                  )
                  (rw (get_text-object fields (codes "ipAddress") d.ip_address refl, load_device)
                    (rw
                      (
                        get_text-object fields (codes "bluetoothAddress") d.bluetooth_address refl,
                        load_device,
                      )
                      (rw
                        (
                          get_text-object fields (codes "cloudToken") d.cloud_token refl,
                          load_device,
                        )
                        (rw
                          (
                            get_port-object fields (codes "tcpPort") d.tcp_port h.0 refl,
                            load_device,
                          )
                          (rw
                            (
                              get_port-object fields (codes "udpPort") d.udp_port h.1 refl,
                              load_device,
                            )
                            (rw
                              (
                                get_port-object fields (codes "udpManualPort") d.udp_manual_port h.2
                                    refl,
                                load_device,
                              )
                              (rw
                                (
                                  load_device_servers-json d h,
                                  load_device,
                                  method_from_string-to_string d.pairing_method,
                                )
                                refl))))))))))))

  load_devices-json :
      (ds : List PairedDevice)
      → All IsStorable ds
      → load_devices lib (map (device_json lib) ds) ≡ ds
  unfolding load_devices
  load_devices-json [] h = refl
  load_devices-json (d ∷ ds) h =
      rw (load_device-json d h.0, load_devices) (rw (load_devices-json ds h.1) refl)

  -- The bytes that are written for devices are loaded as the same devices in the same order, if the JSON
  -- library reads back the text that it writes for them, ports fit in 16 bits and each SSH server has a
  -- host or a key path.
  pub load-devices_json :
      (ds : List PairedDevice) (bytes : Bytes)
      → All IsStorable ds
      → lib.dump (devices_json lib ds) ≡ some bytes
      → lib.parse bytes ≡ some (devices_json lib ds)
      → is_empty bytes ≡ false
      → load lib bytes ≡ ds
  unfolding load devices_json
  load-devices_json [] bytes h dumps parses filled = rw (filled, parses) (rw (laws.items_null) refl)
  load-devices_json (d ∷ ds) bytes h dumps parses filled =
      rw (filled, parses) (rw (laws.items_array) (load_devices-json (d ∷ ds) h))
