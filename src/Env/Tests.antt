-- ===== src/Env/Tests.antt =====
-- SSH is switched on for a file whose last line has no end, and off again.
use pcbu_desktop.Base.{
  Bytes, [], ◌∷◌, ◌≡◌, refl, true, false, none, some, codes, contains, starts_with,
}
use pcbu_desktop.Env.{
  Machine, set_ssh_enabled, is_ssh_enabled, end_line, ends_with_newline, has_symlink_below,
}
use pcbu_desktop.Env.Toggle.{IsRestored, set_ssh_enabled-toggle}

abbrev machine : Machine
machine = record {
  has_user = true;
  links = false ∷ false ∷ false ∷ [];
  creates_dirs = true;
  writes = true;
  sets_owner = true;
  sets_mode = true;
  garbage = none;
}

set_ssh_enabled-toggle_example :
    let on = set_ssh_enabled machine (some (codes "A=1")) true in
    let off = set_ssh_enabled machine on.0 false in
    (on.1 ≡ true)
    × (is_ssh_enabled on.0 ≡ true)
    × ((after : Bytes) × (off ≡ (some after, true)) × IsRestored (codes "A=1") after)
    × (is_ssh_enabled off.0 ≡ false)
unfolding has_symlink_below end_line ends_with_newline is_ssh_enabled contains starts_with
set_ssh_enabled-toggle_example =
    set_ssh_enabled-toggle machine (some (codes "A=1")) (refl, refl, refl, refl, refl, refl) refl
