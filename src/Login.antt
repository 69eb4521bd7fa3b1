-- ===== src/Login.antt =====
-- The program that asks for an unlock: natives/pcbu-auth/src/main.cpp, on Linux.
--
-- The unlock handler's result, the answer of the platform's CheckLogin and what the pipes take are arguments.
-- A process ends with the low 8 bits of what its main returns, so that -1 is the exit code 255.
pub mod Module
pub mod Success
pub mod Lines
mod Tests
use pcbu_desktop.Base.{
  ℕ, zero, suc, ◌+◌, Bool, true, false, not, ◌&&◌, ◌||◌, List, [], ◌∷◌, ◌++◌, Option, none, some,
  ltb, if◌then◌else◌, Bytes, codes, str_eq, is_empty, length, take, drop,
}
use pcbu_desktop.Text.{truncate}
use pcbu_desktop.Crypt.{c_str}
use pcbu_desktop.Unlock.State.{UnlockState, success, canceled, is_success}
use pcbu_desktop.Handler.{UnlockResult}

-- The loop of GetServiceName over the rest of the command line; `count` is what `i` counts.
unfoldable pub service_loop : ℕ → ℕ → Bytes → Bytes → Bytes
unfolding c_str
service_loop zero count result rest = result
service_loop (suc fuel) count result [] = result
service_loop (suc fuel) count result (b ∷ bs) =
    let word = c_str (b ∷ bs) in
    let behind = drop (length word + 1) (b ∷ bs) in
    if is_empty word
    then service_loop fuel count result behind
    else service_loop fuel (count + 1) (result ++ ((if ltb 0 count then codes " " else []) ++ word))
        behind

-- `fallback` is the text of the parent's process id, and `cmdline` is what ReadBytes gives for its command line.
unfoldable pub get_service_name : Bytes → Bytes → Bytes
unfolding service_loop truncate
get_service_name fallback cmdline =
    if is_empty cmdline
    then fallback
    else let result = service_loop (length cmdline) 0 [] cmdline in
      if is_empty result then fallback else truncate result 256 (codes "...")

abbrev pub exit_failure : ℕ
exit_failure = 255

-- What a run leaves: its exit code, its lines on the standard output, and what it wrote to the password's pipe.
pub record Ran : Type 0 where
  pub exit_code : ℕ
  pub printed : List Bytes
  pub password : Bytes

-- What the platform answers: whether CheckLogin of the user and the password succeeds, whether passwords are
-- passed on, and how many bytes each `write` to the pipe takes, `none` where it fails.
pub record Platform : Type 0 where
  pub check_login : Bytes → Bytes → Bool
  pub set_password : Bool
  pub pipe : List (Option ℕ)

-- The loop that writes the password: what is written, and what is left. Behind the answers of `pipe` the
-- write waits for its reader.
unfoldable pub write_password : Bytes → Bytes → List (Option ℕ) → Bytes
write_password written [] pipe = written
write_password written (b ∷ bs) [] = written
write_password written (b ∷ bs) (none ∷ pipe) = written
write_password written (b ∷ bs) (some n ∷ pipe) =
    write_password (written ++ take n (b ∷ bs)) (drop n (b ∷ bs)) pipe

abbrev pub is_canceled : UnlockState → Bool
is_canceled canceled = true
is_canceled _ = false

-- The arguments behind the program's name: a user, and the option for the cancel pipe.
unfoldable pub has_valid_arguments : List Bytes → Bool
unfolding str_eq
has_valid_arguments (user ∷ []) = true
has_valid_arguments (user ∷ option ∷ []) = str_eq option (codes "--cancel-pipe")
has_valid_arguments _ = false

-- What runMain does with the result for a user; `messages` is what the handler printed.
unfoldable pub finish_login : Platform → Bytes → List Bytes → UnlockResult → Ran
unfolding write_password str_eq
finish_login platform user messages r =
    if is_success r.state
    then (if str_eq user r.device.user_name && platform.check_login user r.password
        then record {
          exit_code = 0;
          printed = messages;
          password =
              if platform.set_password then write_password [] r.password platform.pipe else [];
        }
        else record {
          exit_code = 1;
          printed = messages ++ (codes "error_password" ∷ []);
          password = [];
        })
    else record {
      exit_code = if is_canceled r.state then 1 else exit_failure;
      printed = messages;
      password = [];
    }

abbrev pub user_of : List Bytes → Bytes
user_of [] = []
user_of (user ∷ rest) = user

unfoldable pub run_main : Platform → List Bytes → List Bytes → UnlockResult → Ran
unfolding has_valid_arguments finish_login
run_main platform arguments messages r =
    if not (has_valid_arguments arguments)
    then record {
      exit_code = exit_failure;
      printed = codes "Invalid parameters." ∷ [];
      password = [];
    }
    else finish_login platform (user_of arguments) messages r

-- `main`, which needs the rights of root.
unfoldable pub login_main : Bool → Platform → List Bytes → List Bytes → UnlockResult → Ran
unfolding run_main
login_main is_root platform arguments messages r =
    if not is_root
    then record {
      exit_code = exit_failure;
      printed = codes "setuid(0) failed." ∷ [];
      password = [];
    }
    else run_main platform arguments messages r
