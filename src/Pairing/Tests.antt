-- ===== src/Pairing/Tests.antt =====
-- A pairing over a stream that brings the phone's request at once.
use pcbu_desktop.Base.{
  ◌≡◌, refl, true, [], ◌∷◌, ◌++◌, some, if◌then◌else◌, Bytes, codes, starts_with, str_eq, leb,
  length, arith,
}
use pcbu_desktop.Packet.{
  PacketError, Incoming, got, read_packet, took, frame, be_bytes, be_value, read_loop, write_packet,
  write, flush, flush_loop,
}
use pcbu_desktop.Device.{PairingMethod, PairedDevice, method_to_string}
use pcbu_desktop.Crypt.{
  decrypt_aes_text, encrypt_aes_packet, decrypt_aes_packet, encrypt_aes, decrypt_aes, seal_parts,
  unseal_parts, c_str, is_outdated, CryptPacket, ok, encrypt_aes_text, to_hex_string,
}
use pcbu_desktop.Crypt.Tests.{
  plain_ssl, twice_coder, randoms, plain-IsSealed, halve-twice, length-twice, repeat, twice,
}
use pcbu_desktop.Storage.{
  JsonLib, get_device_by_id, devices_json, device_fields, ssh_server_json, get_text, get_port,
  get_devices, load, load_devices,
}
use pcbu_desktop.Text.{split, split_loop, find_split}
use pcbu_desktop.Version.{
  compare_version, version_numbers, parse_parts, stoi, read_number, read_digits, compare_loop,
  pairing_protocol_version,
}
use pcbu_desktop.Storage.RoundTrip.{IsJson}
use pcbu_desktop.Storage.Value.{Value, value_lib, value-IsJson}
use pcbu_desktop.Storage.Tests.{disk}
use pcbu_desktop.Pairing.{
  Machine, PairingUiData, Pairing, PacketPairInit, init_from_json, init_fields,
}
use pcbu_desktop.Pairing.Handling.{
  handle_client, handled, new_device, read_encrypted_packet, open_packet, write_encrypted_packet,
  packet_id_pair_response,
}
use pcbu_desktop.Pairing.Prepared.{IsPrepared, TellsKey}
use pcbu_desktop.Pairing.Stored.{Ended, handle_client-Ended}
use pcbu_desktop.Pairing.Opens.{handle_client-opens}

abbrev builder : JsonLib Value
builder = value_lib (Value.num 0)

abbrev request : Value
request = builder.object (
    (codes "protoVersion", builder.text (codes "4.0.0"))
    ∷ (codes "deviceUUID", builder.text (codes "u"))
    ∷ (codes "deviceName", builder.text (codes "phone"))
    ∷ (codes "ipAddress", builder.text (codes "10.0.0.2"))
    ∷ (codes "tcpPort", builder.number 1)
    ∷ (codes "udpPort", builder.number 2)
    ∷ (codes "udpManualPort", builder.number 3)
    ∷ (codes "cloudToken", builder.text [])
    ∷ [])

abbrev machine : Machine
machine = record {
  machine_id = codes "m";
  host_name = codes "pc";
  operating_system = codes "Linux";
  unlock_server_port = 43296;
  mac_addresses = [];
  sha256 = λ text. text;
  fallback_uuid = codes "f";
  password_key = codes "pk";
  seal = randoms;
  reply = randoms;
  now = 1000;
  later = 1001;
  thrown = [];
}

abbrev entry : PairingUiData
entry = record {
  user_name = codes "me";
  password = codes "secret";
  enc_key = codes "k";
  method = PairingMethod.tcp;
  bt_address = [];
}

abbrev init : PacketPairInit
init = record {
  proto_version = codes "4.0.0";
  device_uuid = codes "u";
  device_name = codes "phone";
  ip_address = codes "10.0.0.2";
  tcp_port = 1;
  udp_port = 2;
  udp_manual_port = 3;
  cloud_token = [];
}

abbrev password_enc : Bytes
password_enc = twice (repeat 16 1 ++ (repeat 16 2 ++ (codes "secret" ++ repeat 16 0)))

device : PairedDevice
unfolding new_device
device = new_device machine entry init password_enc

devices : Value
unfolding devices_json device_fields ssh_server_json method_to_string
devices = devices_json builder (device ∷ [])

-- The longer text stands for the request.
abbrev lib : JsonLib Value
lib = record builder { parse = λ text. if leb 2 (length text) then some request else some devices }

lib-IsJson : IsJson lib
lib-IsJson =
    let laws = value-IsJson (Value.num 0) in
    record {
      get_object = laws.get_object;
      has_key_object = laws.has_key_object;
      value_object = laws.value_object;
      to_text_text = laws.to_text_text;
      to_port_number = laws.to_port_number;
      items_array = laws.items_array;
      items_null = laws.items_null;
      is_array_array = laws.is_array_array;
      is_object_object = laws.is_object_object;
    }

request_packet : Bytes
unfolding encrypt_aes_packet encrypt_aes seal_parts be_bytes c_str
request_packet = (encrypt_aes_packet plain_ssl randoms 1000 (codes "init") (codes "k")).payload

arrivals : Incoming
unfolding be_bytes
arrivals = got (frame 0x50 request_packet) ∷ []

abbrev pairing : Pairing
pairing = record {
  is_running = true;
  ui = entry;
  reports = [];
  storage = record { cache = []; file = [] };
  out = record { write_buffer = []; sent = []; schedule = took 1000 ∷ [] };
}

abbrev opened : CryptPacket
opened = record { result = ok; error = PacketError.unknown; payload = codes "init" }

reads_request : read_encrypted_packet plain_ssl machine entry arrivals ≡ some (opened, got [] ∷ [])
unfolding arrivals request_packet encrypt_aes_packet encrypt_aes seal_parts read_encrypted_packet
    open_packet read_packet read_loop be_value be_bytes decrypt_aes_packet decrypt_aes unseal_parts
    c_str is_outdated
reads_request = refl

response : Bytes
unfolding encrypt_aes_packet encrypt_aes seal_parts be_bytes c_str
response =
    frame packet_id_pair_response
      (encrypt_aes_packet plain_ssl randoms 1001 (codes "x") (codes "k")).payload

writes_response :
    write_encrypted_packet plain_ssl machine entry pairing.out packet_id_pair_response (codes "x")
    ≡ some (true, record { write_buffer = []; sent = response; schedule = [] })
unfolding response write_encrypted_packet encrypt_aes_packet encrypt_aes seal_parts c_str
    write_packet write flush flush_loop be_bytes
writes_response = refl

is_prepared :
    IsPrepared lib plain_ssl twice_coder machine disk entry (codes "init") device (codes "x")
unfolding init_from_json init_fields get_text get_port device compare_version version_numbers
    parse_parts stoi read_number read_digits split split_loop find_split starts_with
    encrypt_aes_text encrypt_aes seal_parts c_str to_hex_string pairing_protocol_version
    compare_loop str_eq
is_prepared = record {
  init = init;
  password_enc = password_enc;
  parses = refl;
  same_version = refl;
  encrypts = refl;
  is_new = refl;
  dumps = refl;
}

handle_client-Ended_example :
    Ended lib plain_ssl twice_coder machine disk pairing arrivals
      (handle_client lib plain_ssl twice_coder machine disk pairing arrivals)
handle_client-Ended_example =
    handle_client-Ended lib plain_ssl twice_coder machine disk pairing arrivals

handle_client-opens_example :
    (q : Pairing) × (handle_client lib plain_ssl twice_coder machine disk pairing arrivals
      ≡ handled q)
    × ((get_device_by_id lib q.storage device.id).1 ≡ some device)
    × (decrypt_aes_text plain_ssl twice_coder device.password_enc machine.password_key
        ≡ some (codes "secret"))
    × TellsKey lib plain_ssl twice_coder machine disk (codes "pk") (codes "x")
unfolding device devices new_device get_devices load devices_json device_fields ssh_server_json
    method_to_string load_devices
handle_client-opens_example =
    handle_client-opens lib plain_ssl twice_coder machine disk pairing arrivals (got [] ∷ []) opened
      device (codes "x") (record { write_buffer = []; sent = response; schedule = [] })
      reads_request refl is_prepared writes_response (plain-IsSealed (codes "pk") (codes "secret"))
      halve-twice length-twice (omega arith) (omega arith) lib-IsJson (refl, refl)
      (record { bytes = codes "x"; dumps = refl; parses = refl; filled = refl })
      ((omega arith, omega arith, omega arith, tt), tt) tt
