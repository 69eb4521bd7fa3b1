-- ===== src/Login/Module.antt =====
-- The PAM module: natives/pam_pulseunlock/src/pam_auth.cpp, on Linux.
--
-- What PAM and the operating system answer is an argument: the user, the token that other modules left,
-- whether there is a pipe, and the process that runs pcbu_auth, with the chunks of its standard output.
use pcbu_desktop.Base.{
  ℕ, zero, suc, Bool, false, not, List, [], ◌∷◌, ◌++◌, Option, none, some, ◌==◌, if◌then◌else◌,
  Bytes, is_empty, length,
}
use pcbu_desktop.Text.{find_split}
use pcbu_desktop.Crypt.{c_str}

pub data PamResult : Type 0 where
  pam_success pam_ignore pam_auth_err : PamResult

-- What is read of the process: the chunks of its output, its exit code, and the bytes in the pipe.
pub record Process : Type 0 where
  pub output : List Bytes
  pub exit_code : ℕ
  pub password : Bytes

-- `user` is `none` where an item of PAM is not there, `token` is PAM_AUTHTOK, and `process` is `none` where
-- it cannot be started.
pub record PamCall : Type 0 where
  pub user : Option Bytes
  pub token : Option Bytes
  pub has_pipe : Bool
  pub process : Option Process

-- The texts that print_pam shows, in order, and the PAM_AUTHTOK that the module sets.
pub record PamAnswer : Type 0 where
  pub result : PamResult
  pub shown : List Bytes
  pub token : Option Bytes

-- The line without a `\r` at its end.
unfoldable pub pop_return : Bytes → Bytes
pop_return [] = []
pop_return (b ∷ bs) =
    let rest = pop_return bs in if is_empty bs then (if b == 13 then [] else b ∷ []) else b ∷ rest

-- The inner loop over the lines of the buffer, up to an empty one: what is shown, and the new buffer.
unfoldable pub show_lines : ℕ → Bytes → List Bytes × Bytes
unfolding find_split pop_return
show_lines zero buffer = ([], buffer)
show_lines (suc fuel) buffer = elim (find_split (10 ∷ []) buffer) [
  | none ↦ ([], buffer)
  | some (line, behind) ↦
      let later = show_lines fuel behind in
      if is_empty (pop_return line) then ([], behind) else (pop_return line ∷ later.0, later.1)
]

-- The loop that reads the output.
unfoldable pub show_output : Bytes → List Bytes → List Bytes
unfolding show_lines
show_output buffer [] = []
show_output buffer (chunk ∷ chunks) =
    let joined = buffer ++ chunk in
    let (shown, left) = show_lines (length joined) joined in shown ++ show_output left chunks

-- Whether a token is there and is not the empty text.
unfoldable pub has_token : Option Bytes → Bool
unfolding c_str
has_token none = false
has_token (some token) = not (is_empty (c_str token))

unfoldable pub result_of_exit : ℕ → Bytes → PamResult
unfolding c_str
result_of_exit exit_code password =
    if exit_code == 0
    then (if is_empty (c_str password) then pam_success else pam_ignore)
    else if exit_code == 1
    then pam_auth_err
    else pam_ignore

-- What is made of the process; without a pipe its password is not read.
unfoldable pub finish_process : Bool → Process → PamAnswer
unfolding result_of_exit show_output
finish_process has_pipe process =
    let password = if has_pipe then process.password else [] in
    record {
      result = result_of_exit process.exit_code password;
      shown = show_output [] process.output;
      token =
          if process.exit_code == 0
          then (if is_empty (c_str password) then none else some (c_str password))
          else none;
    }

abbrev pub ignored : PamAnswer
ignored = record { result = pam_ignore; shown = []; token = none }

unfoldable pub pam_sm_authenticate : PamCall → PamAnswer
unfolding finish_process has_token
pam_sm_authenticate call = elim call.user [
  | none ↦ ignored
  | some user ↦ if has_token call.token then ignored else elim call.process [
    | none ↦ ignored
    | some process ↦ finish_process call.has_pipe process
  ]
]
