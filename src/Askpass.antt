-- ===== src/Askpass.antt =====
-- SSH passwords and passphrases from a phone: natives/pcbu-ssh-askpass/src/SshPrompt.cpp.
--
-- The functions of Boost on texts and paths are the interface `Boost`.
pub mod Run
pub mod Match
pub mod Unlocked
mod Tests
use pcbu_desktop.Base.{
  ℕ, ◌-◌, Bool, true, false, not, ◌&&◌, ◌||◌, List, [], ◌∷◌, ◌++◌, Option, none, some, ◌==◌, leb,
  ltb, if◌then◌else◌, Bytes, codes, str_eq, starts_with, is_empty, length, take, drop, keep,
}
use pcbu_desktop.Text.{find_split, trim, truncate}
use pcbu_desktop.Device.{SshServer, PairedDevice}

-- `trim`, `iends_with`, `istarts_with` and `iequals` of the string algorithms, the `/` of paths, and
-- `canonical`, which stands for an absolute path in its canonical or else its normal form.
pub record Boost : Type 0 where
  pub trim_text : Bytes → Bytes
  pub iends_with : Bytes → Bytes → Bool
  pub istarts_with : Bytes → Bytes → Bool
  pub iequals : Bytes → Bytes → Bool
  pub join : Bytes → Bytes → Bytes
  pub canonical : Bytes → Bytes

pub data Kind : Type 0 where
  unknown key password : Kind

pub record SshPrompt : Type 0 where
  pub kind : Kind
  pub user : Bytes
  pub host : Bytes
  pub key_path : Bytes

-- `SshPrompt()`
abbrev pub no_prompt : SshPrompt
no_prompt = record { kind = unknown; user = []; host = []; key_path = [] }

-- What stands before and behind the last occurrence of a byte: `rfind`.
unfoldable pub rfind_split : ℕ → Bytes → Option (Bytes × Bytes)
rfind_split c [] = none
rfind_split c (x ∷ xs) = elim (rfind_split c xs) [
  | some (before, behind) ↦ some (x ∷ before, behind)
  | none ↦ if x == c then some ([], xs) else none
]

-- The user and the host of a password prompt's first part.
unfoldable pub password_prompt : Bytes → SshPrompt
unfolding rfind_split
password_prompt ident = elim (rfind_split b'@' ident) [
  | none ↦ record no_prompt { kind = password; host = ident }
  | some (before, behind) ↦ record no_prompt { kind = password; user = before; host = behind }
]

-- The text between the first two quotes, or nothing.
unfoldable pub quoted : Bytes → Bytes
unfolding find_split
quoted prompt = elim (find_split (39 ∷ []) prompt) [
  | none ↦ []
  | some (before, behind) ↦ elim (find_split (39 ∷ []) behind) [
    | none ↦ []
    | some (inner, rest) ↦ inner
  ]
]

abbrev pub last_is : Bytes → ℕ → Bool
last_is [] c = false
last_is (x ∷ []) c = x == c
last_is (x ∷ y ∷ ys) c = last_is (y ∷ ys) c

-- The last word, without a colon at the end of the prompt, if it looks like a path.
unfoldable pub last_path : Bytes → Bytes
unfolding rfind_split starts_with
last_path prompt =
    let text = if last_is prompt b':' then take (length prompt - 1) prompt else prompt in
    let token : Bytes = elim (rfind_split b' ' text) [
      | none ↦ text
      | some (before, behind) ↦ behind
    ] in
    if starts_with token (codes "/")
      || starts_with token (codes "~")
      || starts_with token (codes ".")
    then token
    else []

abbrev pub key_prompt : Bytes → SshPrompt
key_prompt path =
    if is_empty path then no_prompt else record no_prompt { kind = key; key_path = path }

unfoldable pub parse : Boost → Bytes → SshPrompt
unfolding password_prompt quoted last_path
parse boost raw =
    let prompt = boost.trim_text raw in
    if boost.iends_with prompt (codes "'s password:")
    then password_prompt (take (length prompt - 12) prompt)
    else if not (boost.istarts_with prompt (codes "enter passphrase for"))
    then no_prompt
    else key_prompt (if is_empty (quoted prompt) then last_path prompt else quoted prompt)

abbrev pub is_visible : ℕ → Bool
is_visible c = not (ltb c 32 || c == 127)

abbrev pub display_target : SshPrompt → Kind → Bytes
display_target p password = if is_empty p.user then p.host else p.user ++ (codes "@" ++ p.host)
display_target p key = p.key_path
display_target p unknown = []

unfoldable pub get_display_name : SshPrompt → Bytes
unfolding trim truncate
get_display_name p =
    let target = trim (keep is_visible (display_target p p.kind)) in
    if is_empty target then codes "ssh" else codes "ssh " ++ truncate target 128 (codes "...")

unfoldable pub canonicalize_path : Boost → Bytes → Bytes → Bytes
unfolding str_eq starts_with
canonicalize_path boost home_dir path = boost.canonical (
    if str_eq path (codes "~")
    then home_dir
    else if starts_with path (codes "~/")
    then boost.join home_dir (drop 2 path)
    else path)

-- Whether a server is one that the prompt asks for.
unfoldable pub matches_kind : Boost → Bytes → SshPrompt → Kind → SshServer → Bool
unfolding canonicalize_path str_eq
matches_kind boost home_dir p password server =
    not (is_empty server.host || is_empty p.host)
    && boost.iequals server.host p.host
    && (is_empty server.user || str_eq server.user p.user)
matches_kind boost home_dir p key server =
    not (is_empty server.key_path || is_empty p.key_path)
    && str_eq (canonicalize_path boost home_dir server.key_path)
        (canonicalize_path boost home_dir p.key_path)
matches_kind boost home_dir p unknown server = false

abbrev pub find_if : (SshServer → Bool) → List SshServer → Option SshServer
find_if test [] = none
find_if test (s ∷ ss) = if test s then some s else find_if test ss

abbrev pub or_else : Option SshServer → Option SshServer → Option SshServer
or_else none other = other
or_else (some s) other = some s

abbrev pub is_password : Kind → Bool
is_password password = true
is_password _ = false

unfoldable pub find_match : Boost → Bytes → SshPrompt → PairedDevice → Option SshServer
unfolding matches_kind
find_match boost home_dir p device =
    let matches = matches_kind boost home_dir p p.kind in
    let first = find_if matches device.ssh_servers in
    if is_password p.kind
    then or_else (find_if (λ s. matches s && not (is_empty s.user)) device.ssh_servers) first
    else first
