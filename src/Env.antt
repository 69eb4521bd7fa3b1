-- ===== src/Env.antt =====
-- The environment file of SSH: common_desktop/src/installer/helpers/EnvHelper.cpp, on Linux.
--
-- The file is its text, if it is there. What the system answers (the user's data, symbolic links, the
-- directories, the write and the file's owner and mode) is an argument.
pub mod Toggle
mod Tests
use pcbu_desktop.Base.{
  Bool, true, false, not, ◌&&◌, ◌||◌, List, [], ◌∷◌, ◌++◌, Option, none, some, ◌==◌, if◌then◌else◌,
  Bytes, codes, starts_with, contains, is_empty,
}
use pcbu_desktop.Text.{replace}

abbrev pub ssh_env_line : Bytes
ssh_env_line = codes "SSH_ASKPASS=/usr/local/sbin/pcbu_ssh_askpass\nSSH_ASKPASS_REQUIRE=force"

abbrev pub newline : Bytes
newline = 10 ∷ []

unfoldable pub is_ssh_enabled : Option Bytes → Bool
unfolding contains
is_ssh_enabled none = false
is_ssh_enabled (some text) = contains text ssh_env_line

unfoldable pub ends_with_newline : Bytes → Bool
ends_with_newline [] = false
ends_with_newline (x ∷ []) = x == 10
ends_with_newline (x ∷ y ∷ ys) = ends_with_newline (y ∷ ys)

-- `pop_back`
unfoldable pub pop_back : Bytes → Bytes
pop_back [] = []
pop_back (x ∷ []) = []
pop_back (x ∷ y ∷ ys) = x ∷ pop_back (y ∷ ys)

-- The text with its last line ended.
unfoldable pub end_line : Bytes → Bytes
unfolding ends_with_newline
end_line text =
    if not (is_empty text) && not (ends_with_newline text) then text ++ newline else text

unfoldable pub add_line : Bytes → Bytes
unfolding end_line
add_line text = end_line text ++ (ssh_env_line ++ newline)

unfoldable pub remove_line : Bytes → Bytes
unfolding replace pop_back ends_with_newline
remove_line text =
    let rest = replace text ssh_env_line [] in
    if ends_with_newline rest then pop_back rest else rest

-- HasSymlinkBelow: whether each path between the home directory and the file is a link.
unfoldable pub has_symlink_below : List Bool → Bool
has_symlink_below [] = false
has_symlink_below (is_link ∷ rest) = is_link || has_symlink_below rest

-- What the system answers: whether the user and the home directory are there, which paths below it are
-- symbolic links, and whether the calls work; a write that fails leaves `garbage`.
pub record Machine : Type 0 where
  pub has_user : Bool
  pub links : List Bool
  pub creates_dirs : Bool
  pub writes : Bool
  pub sets_owner : Bool
  pub sets_mode : Bool
  pub garbage : Option Bytes

abbrev pub text_of : Option Bytes → Bytes
text_of none = []
text_of (some text) = text

-- The file, and whether SetSshEnabled returns.
unfoldable pub write_text : Machine → Option Bytes → Bytes → Option Bytes × Bool
write_text m file text =
    if not m.creates_dirs
    then (file, false)
    else if not m.writes
    then (m.garbage, false)
    else (some text, m.sets_owner && m.sets_mode)

unfoldable pub set_ssh_enabled : Machine → Option Bytes → Bool → Option Bytes × Bool
unfolding contains add_line remove_line write_text has_symlink_below
set_ssh_enabled m file enabled =
    let text = text_of file in
    let has_line = contains text ssh_env_line in
    if not m.has_user || has_symlink_below m.links
    then (file, false)
    else if enabled
    then (if has_line then (file, true) else write_text m file (add_line text))
    else if has_line
    then write_text m file (remove_line text)
    else (file, true)
