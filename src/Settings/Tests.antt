-- ===== src/Settings/Tests.antt =====
-- Settings over the value type of the storage's tests, and a change of the unlock port.
use pcbu_desktop.Base.{
  ℕ, ◌^◌, ◌<◌, ◌≡◌, refl, ap, ◌∙◌, Bool, true, false, ltb, lt→ltb, if◌then◌else◌, [], ◌∷◌, Option,
  All, none, some, Bytes, codes, arith,
}
use pcbu_desktop.Device.{udp, empty_device}
use pcbu_desktop.Storage.{Storage, devices_json, get_devices}
use pcbu_desktop.Storage.Devices.{IsWritten}
use pcbu_desktop.Storage.RoundTrip.{IsStorable, find_field}
use pcbu_desktop.Settings.Config.Udp.{without_method, without_udp}
use pcbu_desktop.Storage.Value.{
  Value, nil, str, num, bit, obj, to_fields, from_fields, is_found, text_or, find_field-to_fields,
  value_lib, value-IsJson, value_or_default, value_has,
}
use pcbu_desktop.Storage.Tests.{disk}
use pcbu_desktop.Settings.{
  Settings, ValueLib, AppSettings, Writer, settings_fields, load_defaults, empty_settings, get,
  save, invalidate_cache,
}
use pcbu_desktop.Settings.Saved.{IsValueJson, get-save}
use pcbu_desktop.Settings.Config.{Terminal, unlock_server_port, set_config_value, to_string, digits}
use pcbu_desktop.Settings.Config.Changes.{IsApplied, set_config_value-IsApplied}

abbrev number_or : ℕ → ℕ → Option Value → Option ℕ
number_or w default (some (num n)) = if ltb n (2 ^ w) then some n else none
number_or w default (some _) = none
number_or w default none = some default

abbrev value_number_or : ℕ → Value → Bytes → ℕ → Option ℕ
value_number_or w (obj fs) key default = number_or w default (find_field (from_fields fs) key)
value_number_or w _ key default = none

abbrev flag_or : Bool → Option Value → Option Bool
flag_or default (some (bit b)) = some b
flag_or default (some _) = none
flag_or default none = some default

abbrev value_flag_or : Value → Bytes → Bool → Option Bool
value_flag_or (obj fs) key default = flag_or default (find_field (from_fields fs) key)
value_flag_or _ key default = none

abbrev lib : Value → ValueLib Value
lib stored = record {
  text = str;
  number = num;
  flag = bit;
  object = λ fs. obj (to_fields fs);
  parse = λ bytes. some stored;
  dump = λ v. some (codes "x");
  has_key = value_has;
  value_text = value_or_default;
  value_number = value_number_or;
  value_flag = value_flag_or;
}

number_or-num : (w default n : ℕ) → n < 2 ^ w → number_or w default (some (num n)) ≡ some n
number_or-num w default n h = rw (lt→ltb n (2 ^ w) h) refl

lib-IsValueJson : (stored : Value) → IsValueJson (lib stored)
lib-IsValueJson stored = record {
  text_object =
      λ fs key default t e. ap (text_or default) (find_field-to_fields fs key (some (str t)) e);
  text_missing = λ fs key default e. ap (text_or default) (find_field-to_fields fs key none e);
  number_object = λ w fs key default n h e.
      ap (number_or w default) (find_field-to_fields fs key (some (num n)) e)
      ∙ number_or-num w default n h;
  flag_object =
      λ fs key default b e. ap (flag_or default) (find_field-to_fields fs key (some (bit b)) e);
  has_key_object = λ fs key {j} e. ap is_found (find_field-to_fields fs key (some j) e);
}

defaults : Settings
defaults = load_defaults (codes "m")

stored : Value
stored = obj (to_fields (settings_fields (lib nil) defaults))

abbrev writer : Writer
writer = record { writes = true; garbage = none }

abbrev fresh : AppSettings
fresh = record { cache = empty_settings; dirs = record { new_file = none; old_file = some [] } }

get-save_example :
    ((get (lib stored) writer (save (lib stored) writer fresh defaults) [] []).1 ≡ defaults)
    × ((get
          (lib stored)
          writer
          (invalidate_cache (save (lib stored) writer fresh defaults))
          []
          []).1
        ≡ defaults)
unfolding defaults stored load_defaults settings_fields
get-save_example =
    get-save (lib stored) (lib-IsValueJson stored) writer fresh defaults (codes "x") [] []
      (omega arith, omega arith, omega arith, omega arith, omega arith, omega arith) refl refl refl
      refl refl

abbrev terminal : Terminal
terminal = record { macs = []; has_yes = true; is_interactive = false; confirms = false }

abbrev devices : Storage
devices = record { cache = record empty_device { pairing_method = udp } ∷ []; file = [] }

half-IsWritten :
    IsWritten (value_lib nil) (without_method udp (get_devices (value_lib nil) devices).1)
unfolding get_devices devices_json
half-IsWritten = record { bytes = codes "x"; dumps = refl; parses = refl; filled = refl }

rest-IsWritten : IsWritten (value_lib nil) (without_udp (get_devices (value_lib nil) devices).1)
unfolding get_devices devices_json
rest-IsWritten = record { bytes = codes "x"; dumps = refl; parses = refl; filled = refl }

all-IsStorable : All IsStorable (get_devices (value_lib nil) devices).1
unfolding get_devices
all-IsStorable = ((omega arith, omega arith, omega arith, tt), tt)

set_config_value-IsApplied_example :
    IsApplied
      (value_lib nil)
      (value-IsJson nil)
      disk
      (refl, refl)
      terminal
      defaults
      devices
      half-IsWritten
      rest-IsWritten
      all-IsStorable
      unlock_server_port
      (codes "4000")
      (set_config_value
        (value_lib nil)
        disk
        terminal
        defaults
        devices
        unlock_server_port
        (codes "4000"))
set_config_value-IsApplied_example =
    set_config_value-IsApplied (value_lib nil) (value-IsJson nil) disk (refl, refl) terminal
      defaults devices half-IsWritten rest-IsWritten all-IsStorable unlock_server_port
      (codes "4000")

prints_port : to_string 43296 ≡ codes "43296"
unfolding to_string digits
prints_port = refl
