-- ===== src/Login/Tests.antt =====
-- A login with a phone that unlocks.
use pcbu_desktop.Base.{◌≡◌, refl, true, [], ◌∷◌, none, some, codes, str_eq}
use pcbu_desktop.Crypt.{c_str}
use pcbu_desktop.Text.{truncate}
use pcbu_desktop.Device.{empty_device}
use pcbu_desktop.Unlock.State.{success}
use pcbu_desktop.Handler.{UnlockResult}
use pcbu_desktop.Login.{
  Platform, login_main, run_main, has_valid_arguments, finish_login, write_password,
  get_service_name, service_loop,
}
use pcbu_desktop.Login.Module.{PamCall, Process, pam_sm_authenticate, has_token, finish_process}
use pcbu_desktop.Login.Success.{Means, pam_sm_authenticate-Means}

abbrev platform : Platform
platform = record {
  check_login = λ user password. true;
  set_password = true;
  pipe = some 1 ∷ some 9 ∷ [];
}

abbrev unlocked : UnlockResult
unlocked = record {
  state = success;
  device = record empty_device { user_name = codes "me" };
  password = codes "pw";
  password_key = codes "k";
}

abbrev ended : Process
ended = record { output = []; exit_code = 0; password = codes "pw" }

abbrev call : PamCall
call = record { user = some (codes "me"); token = none; has_pipe = true; process = some ended }

pam_sm_authenticate-Means_example : Means platform (codes "me") unlocked (pam_sm_authenticate call)
unfolding login_main run_main has_valid_arguments finish_login write_password str_eq
pam_sm_authenticate-Means_example =
    pam_sm_authenticate-Means platform (codes "me") unlocked call ended true [] refl refl refl refl

-- The token is the password, and the stack goes on.
sets_token : (pam_sm_authenticate call).token ≡ some (codes "pw")
unfolding pam_sm_authenticate has_token finish_process c_str
sets_token = refl

-- A command line with an empty argument in between.
names_service : get_service_name (codes "PID 1") (codes "su\0\0root\0") ≡ codes "su root"
unfolding get_service_name service_loop c_str truncate
names_service = refl
