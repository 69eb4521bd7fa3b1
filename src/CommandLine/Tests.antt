-- ===== src/CommandLine/Tests.antt =====
-- Command lines.
use pcbu_desktop.Base.{◌≡◌, refl, true, List, [], ◌∷◌, some, Bytes, codes, str_eq, starts_with}
use pcbu_desktop.Text.{find_split}
use pcbu_desktop.CommandLine.{
  CommandLine, has_name, split_option, is_positional, parse_loop, parse, has_flag, get_option,
}
use pcbu_desktop.CommandLine.Parse.{parse-declared}

abbrev flag_names : List Bytes
flag_names = codes "-v" ∷ []

abbrev option_names : List Bytes
option_names = codes "--to" ∷ []

abbrev arguments : List Bytes
arguments = codes "-v" ∷ codes "--to" ∷ codes "7" ∷ codes "x" ∷ []

abbrev command_line : CommandLine
command_line = record {
  args = codes "x" ∷ [];
  flags = codes "-v" ∷ [];
  options = (codes "--to", codes "7") ∷ [];
}

parse-declared_example :
    (has_flag command_line (codes "-v") ≡ true → has_name flag_names (codes "-v") ≡ true)
    × (get_option command_line (codes "-v") ≡ some (codes "7")
        → has_name option_names (codes "-v") ≡ true)
unfolding parse parse_loop has_name split_option is_positional str_eq find_split starts_with
parse-declared_example =
    parse-declared flag_names option_names arguments command_line (codes "-v") (codes "7") refl
