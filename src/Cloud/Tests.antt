-- ===== src/Cloud/Tests.antt =====
-- An answer of the cloud with a relay.
use pcbu_desktop.Base.{◌≡◌, refl, true, false, [], ◌∷◌, some, codes}
use pcbu_desktop.Storage.{JsonLib}
use pcbu_desktop.Storage.Value.{Value, value_lib}
use pcbu_desktop.Unlock.State.{unknown, starting}
use pcbu_desktop.Cloud.{
  HttpResult, CloudClient, connect_thread, request_cloud_unlock, start, poll_cloud_pairing,
  CloudPairingStatus, without_info,
}
use pcbu_desktop.Cloud.Answers.{Allows, connect_thread-Allows}

abbrev builder : JsonLib Value
builder = value_lib (Value.num 0)

abbrev offer : Value
offer = builder.object (
    (codes "result", builder.text (codes "OK"))
    ∷ (codes "sessionId", builder.text (codes "s"))
    ∷ (codes "relayUrl", builder.text (codes "wss://relay"))
    ∷ (codes "joinToken", builder.text (codes "t"))
    ∷ [])

abbrev relay_answer : HttpResult
relay_answer = record { ok = true; status = 200; body = codes "x" }

abbrev client : CloudClient
client = record { is_running = false; state = unknown; phase = starting }

connect_thread-Allows_example : Allows (value_lib offer) (start client) true (some relay_answer) (
    connect_thread
      (start client)
      true
      true
      (request_cloud_unlock (value_lib offer) (some relay_answer)))
connect_thread-Allows_example =
    connect_thread-Allows (value_lib offer) (start client) true true (some relay_answer)

polls_pending :
    poll_cloud_pairing (value_lib offer) (some (record relay_answer { status = 204 }))
    ≡ without_info CloudPairingStatus.pending
unfolding poll_cloud_pairing
polls_pending = refl
