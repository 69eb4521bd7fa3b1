-- ===== src/Unlock/State.antt =====
-- common/src/handler/UnlockState.h
use pcbu_desktop.Base.{Bool, true, false}

pub data UnlockState : Type 0 where
  unknown success canceled timeout connect_error time_error data_error not_paired_error :
      UnlockState
  app_error start_error port_error protocol_error cloud_server_unreachable : UnlockState
  cloud_phone_unreachable cloud_rate_limited cloud_pairing_gone cloud_device_stale : UnlockState
  cloud_no_subscription cloud_subscription_stale cloud_subscription_on_hold : UnlockState
  cloud_subscription_paused unk_error : UnlockState

abbrev pub is_unknown : UnlockState → Bool
is_unknown unknown = true
is_unknown _ = false

abbrev pub is_success : UnlockState → Bool
is_success success = true
is_success _ = false

-- In the order of their declaration.
pub data UnlockPhase : Type 0 where
  finished starting client_connecting server_waiting cloud_requesting : UnlockPhase
  cloud_connecting phone_unlocking : UnlockPhase
