-- ===== src/CommandLine.antt =====
-- The command line of the cli: cli/src/cli/CommandLine.cpp. A set of flags is the list of its insertions,
-- and the map of options a list of its assignments with the last one first.

pub mod Parse
mod Tests
use pcbu_desktop.Base.{
  ℕ, suc, ◌+◌, Bool, true, false, ◌&&◌, ◌||◌, List, [], ◌∷◌, ◌++◌, Option, none, some, ◌==◌, ltb,
  leb, if◌then◌else◌, Bytes, codes, str_eq, length, get_elem?, starts_with, contains,
}
use pcbu_desktop.Text.{find_split}

pub record CommandLine : Type 0 where
  pub args : List Bytes
  pub flags : List Bytes
  pub options : List (Bytes × Bytes)

-- The exceptions of the constructor and of ExpectArgs, with the name or argument in their text.
pub data InvalidArgument : Type 0 where
  takes_no_value requires_value unknown_option unexpected_argument : Bytes → InvalidArgument
  missing_argument : InvalidArgument

pub data Parsed : Type 0 where
  parsed : CommandLine → Parsed
  thrown : InvalidArgument → Parsed

unfoldable pub has_name : List Bytes → Bytes → Bool
unfolding str_eq
has_name [] name = false
has_name (x ∷ xs) name = str_eq x name || has_name xs name

abbrev pub push_arg : CommandLine → Bytes → CommandLine
push_arg c arg = record c { args = c.args ++ (arg ∷ []) }

abbrev pub insert_flag : CommandLine → Bytes → CommandLine
insert_flag c name = record c { flags = name ∷ c.flags }

abbrev pub set_option : CommandLine → Bytes → Bytes → CommandLine
set_option c name value = record c { options = (name, value) ∷ c.options }

-- The name and the value of an argument that may hold a `=`.
unfoldable pub split_option : Bytes → Bytes × Option Bytes
unfolding find_split
split_option arg = elim (find_split (codes "=") arg) [
  | none ↦ (arg, none)
  | some (name, value) ↦ (name, some value)
]

unfoldable pub is_positional : Bytes → Bool
unfolding starts_with
is_positional arg =
    if ltb (length arg) 2 then true else if starts_with arg (codes "-") then false else true

module _ (flags value_options : List Bytes) where
  -- The loop of the constructor, on the arguments that are left.
  unfoldable pub parse_loop : Bool → CommandLine → List Bytes → Parsed
  unfolding str_eq has_name split_option is_positional
  parse_loop only_args c [] = parsed c
  parse_loop true c (arg ∷ rest) = parse_loop true (push_arg c arg) rest
  parse_loop false c (arg ∷ []) =
      if is_positional arg
      then parsed (push_arg c arg)
      else if str_eq arg (codes "--")
      then parsed c
      else let name = (split_option arg).0 in
        if has_name flags name
        then elim (split_option arg).1 [
          | some value ↦ thrown (takes_no_value name)
          | none ↦ parsed (insert_flag c name)
        ]
        else if has_name value_options name
        then elim (split_option arg).1 [
          | some value ↦ parsed (set_option c name value)
          | none ↦ thrown (requires_value name)
        ]
        else thrown (unknown_option name)
  parse_loop false c (arg ∷ next ∷ rest) =
      let name = (split_option arg).0 in
      let positional = parse_loop false (push_arg c arg) (next ∷ rest) in
      let after_dashes = parse_loop true c (next ∷ rest) in
      let flagged = parse_loop false (insert_flag c name) (next ∷ rest) in
      let valued = λ (value : Bytes). parse_loop false (set_option c name value) (next ∷ rest) in
      let consumed = parse_loop false (set_option c name next) rest in
      if is_positional arg
      then positional
      else if str_eq arg (codes "--")
      then after_dashes
      else if has_name flags name
      then elim (split_option arg).1 [ some value ↦ thrown (takes_no_value name) | none ↦ flagged ]
      else if has_name value_options name
      then elim (split_option arg).1 [ some value ↦ valued value | none ↦ consumed ]
      else thrown (unknown_option name)

  unfoldable pub parse : List Bytes → Parsed
  unfolding parse_loop
  parse args = parse_loop false (record { args = []; flags = []; options = [] }) args

unfoldable pub get_arg : CommandLine → ℕ → Bytes
get_arg c index = elim (get_elem? c.args index) [ none ↦ [] | some arg ↦ arg ]

unfoldable pub expect_args : CommandLine → ℕ → ℕ → Option InvalidArgument
unfolding get_arg
expect_args c min_count max_count =
    if ltb (length c.args) min_count
    then some missing_argument
    else if ltb max_count (length c.args)
    then some (unexpected_argument (get_arg c max_count))
    else none

unfoldable pub get_arg_count : CommandLine → ℕ
get_arg_count c = length c.args

unfoldable pub has_flag : CommandLine → Bytes → Bool
unfolding has_name
has_flag c name = has_name c.flags name

unfoldable pub find_option : List (Bytes × Bytes) → Bytes → Option Bytes
unfolding str_eq
find_option [] name = none
find_option ((key, value) ∷ rest) name =
    if str_eq key name then some value else find_option rest name

unfoldable pub get_option : CommandLine → Bytes → Option Bytes
unfolding find_option
get_option c name = find_option c.options name
