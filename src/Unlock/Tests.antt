-- ===== src/Unlock/Tests.antt =====
-- An exchange with one phone, with a codec that hides nothing.
use pcbu_desktop.Base.{◌≡◌, refl, true, false, [], ◌∷◌, none, some, codes, str_eq}
use pcbu_desktop.Device.{PairedDevice, empty_device}
use pcbu_desktop.Packet.{no_error}
use pcbu_desktop.Unlock.State.{success, unknown, starting}
use pcbu_desktop.Unlock.{
  Connection, error_state, has_unlock_request, has_unlock_request, ok, Codec, packet_id_device_id,
  packet_id_unlock_response, find_allowed_device,
}
use pcbu_desktop.Unlock.Handlers.{check_response, on_response_received, on_packet_received}
use pcbu_desktop.Unlock.Strangers.{SameResult, on_packet_received-SameResult}
use pcbu_desktop.Unlock.Flow.{System, connects, receives, run}
use pcbu_desktop.Unlock.Authentic.{Evidence}
use pcbu_desktop.Unlock.Reach.{IsFresh, run-Evidence}
use pcbu_desktop.Unlock.Progress.{packet_of}
use pcbu_desktop.Unlock.Exchange.{run-exchange}

abbrev plain_codec : Codec
plain_codec = record {
  encrypt = λ text key. some text;
  decrypt = λ text key. ok text;
  from_hex = λ text. text;
  request_data = λ user program token. token;
  response_from_json = λ text. some (record { error = []; enc_data = text });
  data_from_json = λ text. some (record { unlock_token = text; password_key = codes "k" });
}

abbrev phone : PairedDevice
phone = record empty_device { id = codes "phone"; encryption_key = codes "key" }

abbrev server_system : System
server_system = record {
  connection = record {
    phase = starting;
    unlock_state = unknown;
    paired_device = empty_device;
    response_data = record { unlock_token = []; password_key = [] };
    connections = λ _. none;
    allowed_devices = phone ∷ [];
    auth_user = codes "user";
    auth_program = codes "sudo";
    unlock_token = codes "token";
  };
  server = true;
  running = λ _. false;
}

server-IsFresh : IsFresh plain_codec server_system
server-IsFresh = record { no_streams = λ k. refl; undecided = refl; owner = tt }

run-exchange_example :
    let c =
      (run plain_codec server_system (
        connects 3 no_error
        ∷ receives 3 (packet_of packet_id_device_id (codes "phone")) no_error
        ∷ receives 3 (packet_of packet_id_unlock_response (codes "token")) no_error
        ∷ [])).connection in
    (c.unlock_state ≡ success)
    × (c.paired_device ≡ phone)
    × (c.response_data ≡ record { unlock_token = codes "token"; password_key = codes "k" })
unfolding find_allowed_device str_eq
run-exchange_example =
    run-exchange plain_codec server_system 3 (codes "phone") (codes "token") (codes "token")
      (codes "token") phone (record { error = []; enc_data = codes "token" })
      (record { unlock_token = codes "token"; password_key = codes "k" }) refl refl refl refl refl
      refl refl refl refl refl

run-Evidence_example :
    Evidence plain_codec
      (run plain_codec server_system (
        connects 3 no_error
        ∷ receives 3 (packet_of packet_id_device_id (codes "phone")) no_error
        ∷ receives 3 (packet_of packet_id_unlock_response (codes "token")) no_error
        ∷ [])).connection
run-Evidence_example =
    run-Evidence plain_codec server_system
      (connects 3 no_error
        ∷ receives 3 (packet_of packet_id_device_id (codes "phone")) no_error
        ∷ receives 3 (packet_of packet_id_unlock_response (codes "token")) no_error
        ∷ [])
      server-IsFresh run-exchange_example.0

on_packet_received-SameResult_example :
    SameResult server_system.connection
      (on_packet_received plain_codec server_system.connection 3
        (packet_of packet_id_unlock_response (codes "token"))
        no_error
        true).0
on_packet_received-SameResult_example =
    on_packet_received-SameResult plain_codec server_system.connection 3
      (packet_of packet_id_unlock_response (codes "token")) no_error refl

abbrev refusing_codec : Codec
refusing_codec = record plain_codec {
  response_from_json = λ text. some (record { error = codes "CANCEL"; enc_data = [] });
}

abbrev decided : Connection
decided = record server_system.connection {
  unlock_state = success;
  connections = λ _. some (record { state = has_unlock_request; device = phone });
}

-- A refusal that comes behind a success.
refuses_late :
    (on_packet_received refusing_codec decided 4
      (packet_of packet_id_unlock_response (codes "no"))
      no_error
      true).0.unlock_state
    ≡ error_state (codes "CANCEL")
unfolding on_packet_received on_response_received check_response
refuses_late = refl
