-- ===== src/Handler.antt =====
-- The unlock handler: common/src/handler/UnlockHandler.cpp, with the texts of
-- common/src/handler/UnlockState.h as keys of I18n's messages.
--
-- `Results` is what the threads of GetResult share; each thread's merge of its result runs under
-- `resultMutex` and is one step. `RunServer` runs on what one turn of its loop observes.

pub mod Merge
pub mod Server
pub mod Loop
mod Tests
use pcbu_desktop.Base.{
  ℕ, suc, ◌+◌, Bool, true, false, not, ◌&&◌, ◌||◌, List, [], ◌∷◌, ◌++◌, Option, none, some, ◌==◌,
  ltb, leb, if◌then◌else◌, Bytes, codes, str_eq, is_empty,
}
use pcbu_desktop.Device.{PairingMethod, tcp, bluetooth, udp, manual_udp, PairedDevice, empty_device}
use pcbu_desktop.Unlock.State.{
  UnlockState, UnlockPhase, unknown, success, canceled, connect_error, time_error, data_error,
  not_paired_error, app_error, start_error, port_error, protocol_error, cloud_server_unreachable,
  cloud_phone_unreachable, cloud_rate_limited, cloud_pairing_gone, cloud_device_stale,
  cloud_no_subscription, cloud_subscription_stale, cloud_subscription_on_hold,
  cloud_subscription_paused, unk_error, is_unknown, is_success, finished, starting,
  client_connecting, server_waiting, cloud_requesting, cloud_connecting, phone_unlocking,
}

-- UnlockStateUtils::ToString, as the key that it gives to I18n::Get.
unfoldable pub state_key : UnlockState → Bytes
state_key success = codes "unlock_success"
state_key canceled = codes "unlock_canceled"
state_key UnlockState.timeout = codes "unlock_timeout"
state_key connect_error = codes "unlock_error_connect"
state_key time_error = codes "unlock_error_time"
state_key data_error = codes "unlock_error_data"
state_key not_paired_error = codes "unlock_error_not_paired"
state_key app_error = codes "unlock_error_app"
state_key start_error = codes "error_start_handler"
state_key port_error = codes "error_unlock_server_init"
state_key protocol_error = codes "error_protocol_mismatch"
state_key unk_error = codes "unlock_error_unknown"
state_key cloud_server_unreachable = codes "unlock_error_cloud_server_unreachable"
state_key cloud_phone_unreachable = codes "unlock_error_cloud_phone_unreachable"
state_key cloud_rate_limited = codes "unlock_error_cloud_rate_limited"
state_key cloud_no_subscription = codes "unlock_error_cloud_no_subscription"
state_key cloud_pairing_gone = codes "unlock_error_cloud_pairing_gone"
state_key cloud_subscription_stale = codes "unlock_error_cloud_subscription_stale"
state_key cloud_device_stale = codes "unlock_error_cloud_device_stale"
state_key cloud_subscription_on_hold = codes "unlock_error_cloud_subscription_on_hold"
state_key cloud_subscription_paused = codes "unlock_error_cloud_subscription_paused"
state_key unknown = codes "error_unknown"

-- UnlockPhaseUtils::ToString; a finished phase has no text.
unfoldable pub phase_key : UnlockPhase → Bytes
phase_key starting = codes "initializing"
phase_key client_connecting = codes "wait_client_phone_connect"
phase_key server_waiting = codes "wait_server_phone_connect"
phase_key cloud_requesting = codes "wait_cloud_request"
phase_key cloud_connecting = codes "wait_cloud_connect"
phase_key phone_unlocking = codes "wait_phone_unlock"
phase_key finished = []

-- The number of a phase, by which `<` compares.
unfoldable pub phase_number : UnlockPhase → ℕ
phase_number finished = 0
phase_number starting = 1
phase_number client_connecting = 2
phase_number server_waiting = 3
phase_number cloud_requesting = 4
phase_number cloud_connecting = 5
phase_number phone_unlocking = 6

unfoldable pub is_phone_answer : UnlockState → Bool
is_phone_answer time_error = true
is_phone_answer not_paired_error = true
is_phone_answer app_error = true
is_phone_answer data_error = true
is_phone_answer protocol_error = true
is_phone_answer _ = false

-- The status fields of the handler; `printed` lists what m_PrintMessage got, the last first. A connection
-- is known by a number in place of its address, and there is none at first.
pub record Status : Type 0 where
  pub done : Bool
  pub phase : UnlockPhase
  pub owner : Option ℕ
  pub message : Bytes
  pub printed : List Bytes

abbrev pub is_owner : Option ℕ → ℕ → Bool
is_owner none connection = false
is_owner (some c) connection = c == connection

-- PrintStatus of a connection's phase.
unfoldable pub print_phase : Status → ℕ → UnlockPhase → Status
unfolding phase_key phase_number str_eq
print_phase s connection phase =
    if s.done
    then s
    else if ltb (phase_number phase) (phase_number s.phase) && not (is_owner s.owner connection)
    then s
    else let taken = record s { phase = phase; owner = some connection } in
      let text = phase_key phase in
      if is_empty text || str_eq text s.message
      then taken
      else record taken { message = text; printed = text ∷ s.printed }

-- PrintStatus of a message, which is the last.
unfoldable pub print_message : Status → Bytes → Status
print_message s text =
    if s.done then s else record s { done = true; message = text; printed = text ∷ s.printed }

pub record UnlockResult : Type 0 where
  pub state : UnlockState
  pub device : PairedDevice
  pub password : Bytes
  pub password_key : Bytes

-- `UnlockResult(state)`; `UnlockResult()` has the first state, UNKNOWN.
abbrev pub result_of : UnlockState → UnlockResult
result_of state = record { state = state; device = empty_device; password = []; password_key = [] }

pub record Results : Type 0 where
  pub current : UnlockResult
  pub completed : ℕ
  pub status : Status

abbrev pub store_result : UnlockResult → UnlockResult → Bool → UnlockResult
store_result stored r is_other =
    if is_success r.state || (is_phone_answer r.state && not (is_success stored.state))
    then r
    else if not is_other && not (is_success stored.state) && not (is_phone_answer stored.state)
    then r
    else stored

-- The part of a thread of GetResult behind RunServer: `r` is the result of its connection, and
-- `is_other` what isOtherClient answers.
unfoldable pub finish_server : ℕ → Results → UnlockResult → Bool → Results
unfolding is_phone_answer print_message state_key
finish_server num_servers s r is_other =
    let stored = store_result s.current r is_other in
    let is_last = s.completed + 1 == num_servers in
    let final =
      if is_last && not (is_success stored.state)
      then (if is_unknown stored.state then r else stored)
      else stored in
    let is_final = is_success r.state || (is_last && not (is_success stored.state)) in
    record {
      current = final;
      completed = s.completed + 1;
      status = if is_final then print_message s.status (state_key final.state) else s.status;
    }

-- The merges of all connections in the order in which they finish. What RunServer prints in between is in
-- Server.
unfoldable pub finish_all : ℕ → Results → List (UnlockResult × Bool) → Results
unfolding finish_server
finish_all num_servers s [] = s
finish_all num_servers s ((r, is_other) ∷ rest) =
    finish_all num_servers (finish_server num_servers s r is_other) rest
