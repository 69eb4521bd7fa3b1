-- ===== src/Device.antt =====
-- Paired devices and pairing methods: common/src/storage/PairingMethod.h and the structs of
-- common/src/storage/PairedDevicesStorage.h.
use pcbu_desktop.Base.{ℕ, List, [], ◌≡◌, refl, Bytes, codes, str_eq, if◌then◌else◌}

pub data PairingMethod : Type 0 where
  tcp bluetooth cloud udp manual_udp : PairingMethod

unfoldable pub method_to_string : PairingMethod → Bytes
method_to_string tcp = codes "TCP"
method_to_string bluetooth = codes "BLUETOOTH"
method_to_string cloud = codes "CLOUD"
method_to_string udp = codes "UDP"
method_to_string manual_udp = codes "MANUAL_UDP"

-- An unknown name is read as TCP.
unfoldable pub method_from_string : Bytes → PairingMethod
unfolding str_eq
method_from_string name =
    if str_eq name (codes "TCP")
    then tcp
    else if str_eq name (codes "BLUETOOTH")
    then bluetooth
    else if str_eq name (codes "CLOUD")
    then cloud
    else if str_eq name (codes "UDP")
    then udp
    else if str_eq name (codes "MANUAL_UDP")
    then manual_udp
    else tcp

-- The name of a method is read back as that method.
pub method_from_string-to_string : (m : PairingMethod) → method_from_string (method_to_string m) ≡ m
unfolding method_from_string method_to_string
method_from_string-to_string tcp = refl
method_from_string-to_string bluetooth = refl
method_from_string-to_string cloud = refl
method_from_string-to_string udp = refl
method_from_string-to_string manual_udp = refl

pub record SshServer : Type 0 where
  pub host : Bytes
  pub user : Bytes
  pub key_path : Bytes
  pub password_enc : Bytes

pub record PairedDevice : Type 0 where
  pub id : Bytes
  pub pairing_method : PairingMethod
  pub device_name : Bytes
  pub user_name : Bytes
  pub password_enc : Bytes
  pub encryption_key : Bytes
  pub ip_address : Bytes
  pub tcp_port : ℕ
  pub udp_port : ℕ
  pub udp_manual_port : ℕ
  pub bluetooth_address : Bytes
  pub cloud_token : Bytes
  pub ssh_servers : List SshServer

-- `PairedDevice()`
abbrev pub empty_device : PairedDevice
empty_device = record {
  id = [];
  pairing_method = tcp;
  device_name = [];
  user_name = [];
  password_enc = [];
  encryption_key = [];
  ip_address = [];
  tcp_port = 0;
  udp_port = 0;
  udp_manual_port = 0;
  bluetooth_address = [];
  cloud_token = [];
  ssh_servers = [];
}
