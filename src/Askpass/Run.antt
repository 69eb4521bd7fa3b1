-- ===== src/Askpass/Run.antt =====
-- The program: natives/pcbu-ssh-askpass/src/main.cpp and RootGuard.cpp.
--
-- What the program meets depends on the user id that it runs under: the devices that it can read, what the
-- unlock handler gives for some devices, and the platform's check of a password.
use pcbu_desktop.Base.{
  Bool, true, false, not, ◌&&◌, List, [], ◌∷◌, Option, none, some, if◌then◌else◌, Bytes, str_eq,
  is_empty,
}
use pcbu_desktop.Device.{SshServer, PairedDevice}
use pcbu_desktop.Crypt.{OpenSsl, HexCoder, decrypt_aes_text}
use pcbu_desktop.Unlock.State.{is_success}
use pcbu_desktop.Handler.{UnlockResult}
use pcbu_desktop.Askpass.{Boost, Kind, unknown, SshPrompt, parse, find_match}

-- The effective user.
pub data Euid : Type 0 where
  root user : Euid

-- What the two calls of seteuid of a guard answer, and the check behind the second one.
pub record RootGuard : Type 0 where
  pub raises : Bool
  pub drops : Bool

-- The user inside a guard.
unfoldable pub inside : RootGuard → Euid → Euid
inside g e = if g.raises then root else e

-- The user behind a guard: `none` where its destructor ends the process.
unfoldable pub behind : RootGuard → Euid → Option Euid
behind g e = if not g.raises then some e else if g.drops then some user else none

-- DropPrivileges
unfoldable pub drop_privileges : Bool → Option Euid
drop_privileges works = if works then some user else none

pub record World : Type 0 where
  pub user_name : Bytes
  pub home_dir : Bytes
  pub devices : Euid → List PairedDevice
  pub unlock : Euid → List Bytes → UnlockResult
  pub check_login : Euid → Bytes → Bool
  pub first_guard : RootGuard
  pub second_guard : RootGuard

-- The process has ended, or it leaves the prompt to the terminal, or it prints a text.
pub data Ended : Type 0 where
  exited : Ended
  asks_tty : Euid → Ended
  prints : Euid → Bytes → Ended

abbrev pub answer_with : Euid → Option Bytes → Ended
answer_with e none = asks_tty e
answer_with e (some text) = prints e text

abbrev pub is_unknown_kind : Kind → Bool
is_unknown_kind unknown = true
is_unknown_kind _ = false

module _ (boost : Boost) (ssl : OpenSsl) (coder : HexCoder) (w : World) where
  unfoldable pub matching_ids : SshPrompt → List PairedDevice → List Bytes
  unfolding find_match
  matching_ids prompt [] = []
  matching_ids prompt (d ∷ ds) = elim (find_match boost w.home_dir prompt d) [
    | none ↦ matching_ids prompt ds
    | some server ↦ d.id ∷ matching_ids prompt ds
  ]

  -- What is done with the server of the device that answered.
  unfoldable pub server_password : Option SshServer → Bytes → Option Bytes
  unfolding decrypt_aes_text
  server_password none key = none
  server_password (some server) key = decrypt_aes_text ssl coder server.password_enc key

  -- The result of `unlock` behind its guard; `is_login_valid` was found inside it.
  unfoldable pub unlocked_password : SshPrompt → UnlockResult → Bool → Option Bytes
  unfolding server_password find_match
  unlocked_password prompt r is_login_valid =
      if not (is_success r.state)
      then none
      else if not is_login_valid
      then none
      else server_password (find_match boost w.home_dir prompt r.device) r.password_key

  unfoldable pub is_login_valid : Euid → UnlockResult → Bool
  unfolding str_eq
  is_login_valid e r =
      is_success r.state && str_eq w.user_name r.device.user_name && w.check_login e r.password

  -- `unlock` and what follows it, from the user that it starts with.
  unfoldable pub finish_unlock : SshPrompt → UnlockResult → Bool → Option Euid → Ended
  unfolding unlocked_password
  finish_unlock prompt r valid none = exited
  finish_unlock prompt r valid (some e) = answer_with e (unlocked_password prompt r valid)

  unfoldable pub run_unlock : SshPrompt → Euid → List Bytes → Ended
  unfolding finish_unlock inside behind is_login_valid
  run_unlock prompt e ids =
      let r = w.unlock (inside w.second_guard e) ids in
      finish_unlock prompt r (is_login_valid (inside w.second_guard e) r) (behind w.second_guard e)

  -- What follows the first guard.
  unfoldable pub run_matching : SshPrompt → List PairedDevice → Option Euid → Ended
  unfolding matching_ids run_unlock
  run_matching prompt devices none = exited
  run_matching prompt devices (some e) =
      if is_empty (matching_ids prompt devices)
      then asks_tty e
      else run_unlock prompt e (matching_ids prompt devices)

  unfoldable pub run_main : Euid → Bytes → Ended
  unfolding parse run_matching inside behind
  run_main e raw =
      let prompt = parse boost raw in
      if is_unknown_kind prompt.kind
      then asks_tty e
      else run_matching prompt (w.devices (inside w.first_guard e)) (behind w.first_guard e)

  abbrev pub run_as : Option Euid → Bytes → Ended
  run_as none raw = exited
  run_as (some e) raw = run_main e raw

  -- `main`: the privileges are dropped, and the guard around the log's start comes and goes.
  unfoldable pub askpass_main : Bool → Bool → RootGuard → Bytes → Ended
  unfolding drop_privileges run_main behind
  askpass_main is_root drops log_guard raw =
      if not is_root
      then exited
      else if not drops
      then exited
      else run_as (behind log_guard user) raw
