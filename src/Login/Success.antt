-- ===== src/Login/Success.antt =====
-- The PAM module with the program that it runs: what each of its answers says about the unlock.
use pcbu_desktop.Base.{
  ◌≡◌, refl, ◌∙◌, ◌⊎◌, inl, inr, Bool, true, false, ◌&&◌, List, [], ◌∷◌, Option, none, some, Bytes,
  str_eq, str_eq_iff, is_empty, Bool-cases, if◌then◌else◌,
}
use pcbu_desktop.Crypt.{c_str}
use pcbu_desktop.Unlock.State.{is_success}
use pcbu_desktop.Handler.{UnlockResult}
use pcbu_desktop.Login.{
  Ran, Platform, write_password, is_canceled, exit_failure, finish_login, run_main, login_main,
  has_valid_arguments,
}
use pcbu_desktop.Login.Module.{
  PamResult, pam_success, pam_ignore, pam_auth_err, Process, PamCall, PamAnswer, has_token,
  result_of_exit, finish_process, pam_sm_authenticate,
}

module _ (platform : Platform) (user : Bytes) (r : UnlockResult) where
  -- The phone unlocked for this user, and the platform accepts the password.
  abbrev pub IsVerified : Type 0
  IsVerified =
      (is_success r.state ≡ true)
      × (user ≡ r.device.user_name)
      × (platform.check_login user r.password ≡ true)

  -- The user cancelled, or the phone unlocked and the device or the password is not the user's.
  abbrev pub IsDenied : Type 0
  IsDenied =
      (is_canceled r.state ≡ true)
      ⊎ ((is_success r.state ≡ true)
          × ((str_eq user r.device.user_name && platform.check_login user r.password) ≡ false))

  abbrev pub written : Bytes
  written = if platform.set_password then write_password [] r.password platform.pipe else []

  -- What the exit code and the password's pipe say.
  abbrev ExitCases : Ran → Type 0
  ExitCases ran =
      ((ran.exit_code ≡ 0) × IsVerified × (ran.password ≡ written))
      ⊎ ((ran.exit_code ≡ 1) × IsDenied)
      ⊎ (ran.exit_code ≡ exit_failure)

  finish_login-ExitCases :
      (messages : List Bytes) → ExitCases (finish_login platform user messages r)
  unfolding finish_login
  finish_login-ExitCases messages = elim (Bool-cases (is_success r.state)) [
    | inl won ↦ elim (Bool-cases (str_eq user r.device.user_name)) [
      | inr other ↦ rw (won, other) (inr (inl (refl, inr (refl, refl))))
      | inl same ↦ elim (Bool-cases (platform.check_login user r.password)) [
        | inl fits ↦
            rw (won, same, fits)
              (inl (refl, (refl, (str_eq_iff user r.device.user_name).0 same, refl), refl))
        | inr fails ↦ rw (won, same, fails) (inr (inl (refl, inr (refl, refl))))
      ]
    ]
    | inr lost ↦ elim (Bool-cases (is_canceled r.state)) [
      | inl stopped ↦ rw (lost, stopped) (inr (inl (refl, inl refl)))
      | inr failed ↦ rw (lost, failed) (inr (inr refl))
    ]
  ]

  login_main-ExitCases :
      (is_root : Bool) (messages : List Bytes)
      → ExitCases (login_main is_root platform (user ∷ []) messages r)
  unfolding login_main run_main has_valid_arguments
  login_main-ExitCases false messages = inr (inr refl)
  login_main-ExitCases true messages = finish_login-ExitCases messages

  -- What an answer of the module says, with the token that it sets.
  abbrev pub ResultMeans : PamResult → Type 0
  ResultMeans pam_success = IsVerified
  ResultMeans pam_auth_err = IsDenied
  ResultMeans pam_ignore = Unit {0}

  abbrev pub TokenMeans : Option Bytes → Type 0
  TokenMeans none = Unit {0}
  TokenMeans (some token) = IsVerified × (token ≡ c_str written)

  abbrev pub Means : PamAnswer → Type 0
  Means answer = ResultMeans answer.result × TokenMeans answer.token

  zero-Means :
      (has_pipe : Bool) (process : Process)
      → process.exit_code ≡ 0
      → process.password ≡ written
      → IsVerified
      → Means (finish_process has_pipe process)
  unfolding finish_process result_of_exit
  zero-Means false process e f h = rw e (h, tt)
  zero-Means true process e f h = elim (Bool-cases (is_empty (c_str written))) [
    | inl nothing ↦ rw (e, f, nothing) (h, tt)
    | inr something ↦ rw (e, f, something) (tt, (h, refl))
  ]

  finish_process-Means :
      (has_pipe : Bool) (process : Process) (ran : Ran)
      → process.exit_code ≡ ran.exit_code
      → process.password ≡ ran.password
      → ExitCases ran
      → Means (finish_process has_pipe process)
  unfolding finish_process result_of_exit
  finish_process-Means has_pipe process ran e f (inl (exits, h, g)) =
      zero-Means has_pipe process (e ∙ exits) (f ∙ g) h
  finish_process-Means has_pipe process ran e f (inr (inl (exits, h))) = rw (e, exits) (h, tt)
  finish_process-Means has_pipe process ran e f (inr (inr exits)) = rw (e, exits) (tt, tt)

  module _ (call : PamCall) (process : Process) (is_root : Bool) (messages : List Bytes)
      (asks : call.user ≡ some user) (starts : call.process ≡ some process)
      (exits : process.exit_code ≡ (login_main is_root platform (user ∷ []) messages r).exit_code)
      (passes : process.password
        ≡ (login_main is_root platform (user ∷ []) messages r).password) where
    -- The PAM module answers success, or sets a token, only if the phone unlocked, the unlocked device is of the
    -- user who asks and the platform accepts the password; the token is then what was written of the password,
    -- up to its first zero byte. It answers an authentication error only if the user cancelled, or the phone
    -- unlocked and the device or the password is not the user's. The process is pcbu_auth, run for the user.
    pub pam_sm_authenticate-Means : Means (pam_sm_authenticate call)
    unfolding pam_sm_authenticate
    pam_sm_authenticate-Means = elim (Bool-cases (has_token call.token)) [
      | inl has ↦ rw asks (rw has (tt, tt))
      | inr none_yet ↦ rw asks (
          rw none_yet (
            rw (starts, pam_sm_authenticate)
              (finish_process-Means call.has_pipe process
                (login_main is_root platform (user ∷ []) messages r) exits passes
                (login_main-ExitCases is_root messages))))
    ]
