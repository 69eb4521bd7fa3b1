-- ===== src/Cloud.antt =====
-- The cloud: the requests of common/src/utils/RestClient.cpp, and
-- common/src/connection/unlock/clients/CloudUnlockClient.cpp.
--
-- HttpClient's answer, with its `ok`, status and body, is an argument, and so are the answers of the relay.
-- JSON is the interface of the storage.
pub mod Answers
mod Tests
use pcbu_desktop.Base.{
  ℕ, Bool, true, false, not, ◌||◌, [], Option, none, some, ◌==◌, leb, if◌then◌else◌, Bytes, codes,
  str_eq, is_empty,
}
use pcbu_desktop.Storage.{JsonLib}
use pcbu_desktop.Unlock.State.{
  UnlockState, UnlockPhase, connect_error, not_paired_error, protocol_error, unk_error,
  cloud_server_unreachable, cloud_phone_unreachable, cloud_rate_limited, cloud_pairing_gone,
  cloud_device_stale, cloud_no_subscription, cloud_subscription_stale, cloud_subscription_on_hold,
  cloud_subscription_paused, cloud_requesting, cloud_connecting,
}

pub record HttpResult : Type 0 where
  pub ok : Bool
  pub status : ℕ
  pub body : Bytes

pub record CloudRelayInfo : Type 0 where
  pub session_id : Bytes
  pub relay_url : Bytes
  pub join_token : Bytes

-- `CloudRelayInfo()`
abbrev pub no_info : CloudRelayInfo
no_info = record { session_id = []; relay_url = []; join_token = [] }

pub data CloudUnlockStatus : Type 0 where
  ok rate_limited invalid_token device_unknown pairing_revoked no_subscription : CloudUnlockStatus
  subscription_stale subscription_on_hold subscription_paused device_stale : CloudUnlockStatus
  phone_unreachable server_unreachable unsupported_version error : CloudUnlockStatus

pub data CloudPairingStatus : Type 0 where
  ok pending server_unreachable unsupported_version error : CloudPairingStatus

abbrev pub is_ok : CloudUnlockStatus → Bool
is_ok CloudUnlockStatus.ok = true
is_ok _ = false

-- CloudUnlockResult and CloudPairingPollResult
pub record CloudResult (S : Type 0) : Type 0 where
  pub status : S
  pub info : CloudRelayInfo

abbrev pub without_info : {S : Type 0} → S → CloudResult S
without_info status = record { status = status; info = no_info }

-- The kind of subscription problem that the body of a 402 names.
unfoldable pub subscription_status : Option Bytes → CloudUnlockStatus
unfolding str_eq
subscription_status none = CloudUnlockStatus.no_subscription
subscription_status (some text) =
    if str_eq text (codes "SUBSCRIPTION_STALE")
    then CloudUnlockStatus.subscription_stale
    else if str_eq text (codes "SUBSCRIPTION_ON_HOLD")
    then CloudUnlockStatus.subscription_on_hold
    else if str_eq text (codes "SUBSCRIPTION_PAUSED")
    then CloudUnlockStatus.subscription_paused
    else CloudUnlockStatus.no_subscription

-- An unlock's status from the number of an answer, where it is not 200: `none` for 200.
unfoldable pub status_of_code : ℕ → Option Bytes → Option CloudUnlockStatus
unfolding subscription_status
status_of_code code subscription =
    if code == 400
    then some CloudUnlockStatus.unsupported_version
    else if code == 401
    then some CloudUnlockStatus.invalid_token
    else if code == 402
    then some (subscription_status subscription)
    else if code == 404
    then some CloudUnlockStatus.device_unknown
    else if code == 409
    then some CloudUnlockStatus.device_stale
    else if code == 410
    then some CloudUnlockStatus.pairing_revoked
    else if code == 424
    then some CloudUnlockStatus.phone_unreachable
    else if code == 429
    then some CloudUnlockStatus.rate_limited
    else if code == 200
    then none
    else some CloudUnlockStatus.error

module _ {J : Type 0} (lib : JsonLib J) where
  -- `json.value(key, "")` of a parsed body: `none` where the library throws.
  abbrev pub body_text : Bytes → Bytes → Option Bytes
  body_text body key = elim (lib.parse body) [ none ↦ none | some json ↦ lib.value_or json key [] ]

  -- The relay that an OK body names: `none` where a value is missing, or where the library throws.
  unfoldable pub relay_info : Bytes → Option CloudRelayInfo
  unfolding str_eq
  relay_info body = elim (body_text body (codes "result")) [
    | none ↦ none
    | some answer ↦
        if not (str_eq answer (codes "OK"))
        then none
        else elim (body_text body (codes "sessionId")) [
          | none ↦ none
          | some session_id ↦ elim (body_text body (codes "relayUrl")) [
            | none ↦ none
            | some relay_url ↦ elim (body_text body (codes "joinToken")) [
              | none ↦ none
              | some join_token ↦
                  if is_empty session_id || is_empty relay_url || is_empty join_token
                  then none
                  else some (record {
                    session_id = session_id;
                    relay_url = relay_url;
                    join_token = join_token;
                  })
            ]
          ]
        ]
  ]

  -- The result of a request whose body names a relay.
  unfoldable pub unlock_answer :
      Option CloudUnlockStatus → Option CloudRelayInfo → CloudResult CloudUnlockStatus
  unlock_answer (some status) info = without_info status
  unlock_answer none none = without_info CloudUnlockStatus.error
  unlock_answer none (some info) = record { status = CloudUnlockStatus.ok; info = info }

  -- RequestCloudUnlock; there is no answer where the library throws before it.
  unfoldable pub request_cloud_unlock : Option HttpResult → CloudResult CloudUnlockStatus
  unfolding status_of_code relay_info unlock_answer
  request_cloud_unlock none = without_info CloudUnlockStatus.error
  request_cloud_unlock (some r) =
      if not r.ok || leb 500 r.status
      then without_info CloudUnlockStatus.server_unreachable
      else unlock_answer (status_of_code r.status (body_text r.body (codes "result")))
          (relay_info r.body)

  unfoldable pub pairing_answer : Option CloudRelayInfo → CloudResult CloudPairingStatus
  pairing_answer none = without_info CloudPairingStatus.error
  pairing_answer (some info) = record { status = CloudPairingStatus.ok; info = info }

  unfoldable pub poll_cloud_pairing : Option HttpResult → CloudResult CloudPairingStatus
  unfolding relay_info pairing_answer
  poll_cloud_pairing none = without_info CloudPairingStatus.error
  poll_cloud_pairing (some r) =
      if not r.ok || leb 500 r.status
      then without_info CloudPairingStatus.server_unreachable
      else if r.status == 204
      then without_info CloudPairingStatus.pending
      else if r.status == 400
      then without_info CloudPairingStatus.unsupported_version
      else if not (r.status == 200)
      then without_info CloudPairingStatus.error
      else pairing_answer (relay_info r.body)

-- MapRequestError; a status of Ok falls to its default.
unfoldable pub map_request_error : CloudUnlockStatus → UnlockState
map_request_error CloudUnlockStatus.rate_limited = cloud_rate_limited
map_request_error CloudUnlockStatus.invalid_token = not_paired_error
map_request_error CloudUnlockStatus.device_unknown = cloud_pairing_gone
map_request_error CloudUnlockStatus.pairing_revoked = cloud_pairing_gone
map_request_error CloudUnlockStatus.subscription_stale = cloud_subscription_stale
map_request_error CloudUnlockStatus.subscription_on_hold = cloud_subscription_on_hold
map_request_error CloudUnlockStatus.subscription_paused = cloud_subscription_paused
map_request_error CloudUnlockStatus.device_stale = cloud_device_stale
map_request_error CloudUnlockStatus.phone_unreachable = cloud_phone_unreachable
map_request_error CloudUnlockStatus.server_unreachable = cloud_server_unreachable
map_request_error CloudUnlockStatus.no_subscription = cloud_no_subscription
map_request_error CloudUnlockStatus.unsupported_version = protocol_error
map_request_error _ = unk_error

pub record CloudClient : Type 0 where
  pub is_running : Bool
  pub state : UnlockState
  pub phase : UnlockPhase

-- Start, up to the thread; the phase changes through SetPhase.
unfoldable pub start : CloudClient → CloudClient
start c = if c.is_running then c else record c { is_running = true; phase = cloud_requesting }

-- Where a thread stops, or the relay that its stream is connected to for the auth flow.
pub data Connected : Type 0 where
  ended : CloudClient → Connected
  relayed : CloudClient → CloudRelayInfo → Connected

-- ConnectThread up to the auth flow. `is_running` is the flag when the answer is there, and `connects` is
-- what the stream answers.
unfoldable pub connect_thread :
    CloudClient → Bool → Bool → CloudResult CloudUnlockStatus → Connected
unfolding map_request_error
connect_thread c is_running connects r =
    if not (is_ok r.status)
    then (if not is_running
        then ended (record c { is_running = false })
        else ended (record c { state = map_request_error r.status; is_running = false }))
    else let connecting = record c { is_running = is_running; phase = cloud_connecting } in
      if not connects
      then ended (record connecting { state = connect_error; is_running = false })
      else relayed connecting r.info
