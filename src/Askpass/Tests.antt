-- ===== src/Askpass/Tests.antt =====
-- A password prompt for a server that a paired device knows; the texts of the prompts are lower case.
use pcbu_desktop.Base.{
  ◌≡◌, refl, true, [], ◌∷◌, ◌++◌, ◌-◌, codes, str_eq, starts_with, length, drop,
}
use pcbu_desktop.Text.{find_split, trim, ltrim, rtrim, truncate}
use pcbu_desktop.Device.{SshServer, PairedDevice, empty_device}
use pcbu_desktop.Unlock.State.{success}
use pcbu_desktop.Handler.{UnlockResult}
use pcbu_desktop.Crypt.Tests.{plain_ssl, twice_coder}
use pcbu_desktop.Askpass.{
  Boost, SshPrompt, Kind, parse, password_prompt, rfind_split, quoted, get_display_name,
}
use pcbu_desktop.Askpass.Run.{World, RootGuard, askpass_main}
use pcbu_desktop.Askpass.Unlocked.{Means, askpass_main-Means}

abbrev plain_boost : Boost
plain_boost = record {
  trim_text = λ text. text;
  iends_with = λ text end. str_eq (drop (length text - length end) text) end;
  istarts_with = starts_with;
  iequals = str_eq;
  join = λ dir file. dir ++ (codes "/" ++ file);
  canonical = λ path. path;
}

abbrev any_user : SshServer
any_user = record { host = codes "pi"; user = []; key_path = []; password_enc = codes "1" }

abbrev own_user : SshServer
own_user = record { host = codes "pi"; user = codes "me"; key_path = []; password_enc = codes "2" }

abbrev phone : PairedDevice
phone = record empty_device {
  id = codes "p";
  user_name = codes "me";
  ssh_servers = any_user ∷ own_user ∷ [];
}

abbrev asked : SshPrompt
asked = record { kind = Kind.password; user = codes "me"; host = codes "pi"; key_path = [] }

parses_password : parse plain_boost (codes "me@pi's password:") ≡ asked
unfolding parse password_prompt rfind_split str_eq
parses_password = refl

parses_key :
    parse plain_boost (codes "enter passphrase for key '/home/me/.ssh/id':")
    ≡ record { kind = Kind.key; user = []; host = []; key_path = codes "/home/me/.ssh/id" }
unfolding parse str_eq starts_with quoted find_split
parses_key = refl

shows_name : get_display_name asked ≡ codes "ssh me@pi"
unfolding get_display_name trim ltrim rtrim truncate
shows_name = refl

abbrev guard : RootGuard
guard = record { raises = true; drops = true }

abbrev unlocked : UnlockResult
unlocked = record {
  state = success;
  device = phone;
  password = codes "pw";
  password_key = codes "k";
}

abbrev world : World
world = record {
  user_name = codes "me";
  home_dir = codes "/home/me";
  devices = λ e. phone ∷ [];
  unlock = λ e ids. unlocked;
  check_login = λ e password. true;
  first_guard = guard;
  second_guard = guard;
}

askpass_main-Means_example :
    Means plain_boost plain_ssl twice_coder world (codes "me@pi's password:") (
      askpass_main plain_boost plain_ssl twice_coder world true true guard
        (codes "me@pi's password:"))
askpass_main-Means_example =
    askpass_main-Means plain_boost plain_ssl twice_coder world (codes "me@pi's password:") true true
      guard
