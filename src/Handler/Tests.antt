-- ===== src/Handler/Tests.antt =====
-- Two connections that finish, and one run of a server's loop.
use pcbu_desktop.Base.{
  ◌≡◌, ◌≢◌, refl, inl, inr, Bool, true, false, List, [], ◌∷◌, ◌++◌, none, some, codes, str_eq,
  arith,
}
use pcbu_desktop.Device.{PairedDevice, empty_device}
use pcbu_desktop.Unlock.State.{
  success, unknown, time_error, canceled, finished, server_waiting, phone_unlocking,
}
use pcbu_desktop.Unlock.{ResponseData}
use pcbu_desktop.Crypt.{
  OpenSsl, HexCoder, decrypt_aes_text, decrypt_aes, unseal_parts, from_hex_string, c_str,
}
use pcbu_desktop.Handler.{
  phase_key, phase_number, print_phase, Status, UnlockResult, result_of, Results, finish_all,
}
use pcbu_desktop.Handler.Merge.{rank, best_rank, finish_all-rank}
use pcbu_desktop.Handler.Server.{
  Observation, Loop, watch_phase, resume_broadcast, run_turn, run_loop, result_from, server_result,
  finish_run, run_server,
}
use pcbu_desktop.Handler.Loop.{
  HasPolled, Follows, is_on_air, run_turn-broadcast, run_server-success, run_loop-timeout,
}

abbrev silent : Status
silent = record { done = false; phase = finished; owner = none; message = []; printed = [] }

abbrev no_results : Results
no_results = record { current = result_of unknown; completed = 0; status = silent }

abbrev finishes : List (UnlockResult × Bool)
finishes = (result_of time_error, false) ∷ (result_of canceled, false) ∷ []

finish_all-rank_example :
    rank (finish_all 2 no_results finishes).current.state
    ≡ best_rank (rank no_results.current.state) finishes
finish_all-rank_example = finish_all-rank 2 no_results finishes

abbrev started : Loop
started = record { status = silent; is_broadcasting = true; start_time = 0; broadcasts = [] }

abbrev waiting_turn : Observation
waiting_turn = record {
  is_stopped = false;
  phase = phone_unlocking;
  polled = unknown;
  is_running = true;
  now = 20;
  cancel_keys = false;
}

abbrev success_turn : Observation
success_turn = record waiting_turn { polled = success }

abbrev late_turn : Observation
late_turn = record waiting_turn { phase = server_waiting; now = 120001 }

run_turn-broadcast_example :
    let after = (run_turn 1 started waiting_turn).0 in
    Follows (is_on_air true after.broadcasts) phone_unlocking
    × Follows after.is_broadcasting phone_unlocking
unfolding run_turn watch_phase resume_broadcast print_phase phase_key phase_number str_eq
run_turn-broadcast_example = run_turn-broadcast 1 true started waiting_turn refl refl

run_loop-timeout_example : (run_loop 1 started (waiting_turn ∷ late_turn ∷ [])).1 ≢ none
run_loop-timeout_example =
    run_loop-timeout 1 started (waiting_turn ∷ late_turn ∷ []) (refl, (refl, tt))
      (inr (inl (refl, omega arith)))

-- A cipher whose text is 48 bytes longer than what it hides.
abbrev open_ssl : OpenSsl
open_ssl = record {
  derive = λ pwd salt. some pwd;
  seal = λ key iv src. some (src, []);
  unseal = λ key iv text tag. some text;
}

abbrev plain_coder : HexCoder
plain_coder = record { hex = λ bytes. bytes; unhex = λ text. some text }

abbrev phone : PairedDevice
phone = record empty_device {
  password_enc =
      codes "0123456789abcdef0123456789abcdef" ++ (codes "pw" ++ codes "0123456789abcdef");
}

abbrev phone_answer : ResponseData
phone_answer = record { unlock_token = codes "t"; password_key = codes "k" }

abbrev unlocked : UnlockResult
unlocked = record {
  state = success;
  device = phone;
  password = codes "pw";
  password_key = codes "k";
}

run_server-success_example :
    HasPolled success (waiting_turn ∷ success_turn ∷ [])
    × (decrypt_aes_text open_ssl plain_coder phone.password_enc phone_answer.password_key
        ≡ some unlocked.password)
    × (unlocked.password_key ≡ phone_answer.password_key)
    × (unlocked.device ≡ phone)
unfolding run_server run_loop run_turn watch_phase resume_broadcast print_phase phase_key
    phase_number str_eq finish_run server_result result_from decrypt_aes_text decrypt_aes
    unseal_parts from_hex_string c_str
run_server-success_example =
    run_server-success open_ssl plain_coder 1 true started (waiting_turn ∷ success_turn ∷ []) phone
      phone_answer unlocked refl refl
