-- ===== src/CommandLine/Parse.antt =====
-- What a command line that is accepted holds.
use pcbu_desktop.Base.{
  ◌≡◌, refl, ◌∙◌, inl, inr, Bool, true, false, List, [], ◌∷◌, ◌++◌, Option, none, some, Bytes,
  codes, str_eq, str_eq_iff, All, Bool-cases,
}
use mathlib.Core.List.{append-nil, append_assoc}
use pcbu_desktop.CommandLine.{
  takes_no_value, requires_value, CommandLine, Parsed, parsed, thrown, has_name, push_arg,
  insert_flag, set_option, split_option, is_positional, parse_loop, parse, has_flag, find_option,
  get_option,
}

module _ (flags value_options : List Bytes) where
  abbrev pub IsDeclared : CommandLine → Type 0
  IsDeclared c =
      All (λ name. has_name flags name ≡ true) c.flags
      × All (λ (o : Bytes × Bytes). has_name value_options o.0 ≡ true) c.options

  abbrev pub IsDeclaredResult : Parsed → Type 0
  IsDeclaredResult (parsed c) = IsDeclared c
  IsDeclaredResult (thrown e) = Unit {0}

  flag-IsDeclared :
      (value : Option Bytes) (name : Bytes) (r : Parsed)
      → IsDeclaredResult r
      → IsDeclaredResult (elim value [ some v ↦ thrown (takes_no_value name) | none ↦ r ])
  flag-IsDeclared none name r h = h
  flag-IsDeclared (some v) name r h = tt

  value-IsDeclared :
      (value : Option Bytes) (r : Parsed) (s : Bytes → Parsed)
      → IsDeclaredResult r
      → ((v : Bytes) → IsDeclaredResult (s v))
      → IsDeclaredResult (elim value [ some v ↦ s v | none ↦ r ])
  value-IsDeclared none r s hr hs = hr
  value-IsDeclared (some v) r s hr hs = hs v

  parse_loop-IsDeclared :
      (only_args : Bool) (c : CommandLine) (args : List Bytes)
      → IsDeclared c
      → IsDeclaredResult (parse_loop flags value_options only_args c args)
  unfolding parse_loop
  parse_loop-IsDeclared only_args c [] h = h
  parse_loop-IsDeclared true c (arg ∷ rest) h = parse_loop-IsDeclared true (push_arg c arg) rest h
  parse_loop-IsDeclared false c (arg ∷ []) h =
      let name = (split_option arg).0 in
      elim (Bool-cases (is_positional arg)) [
        | inl positional ↦ rw positional h
        | inr option ↦ elim (Bool-cases (str_eq arg (codes "--"))) [
          | inl dashes ↦ rw (option, dashes) h
          | inr named ↦ elim (Bool-cases (has_name flags name)) [
            | inl flag ↦
                rw (option, named, flag)
                  (flag-IsDeclared (split_option arg).1 name (parsed (insert_flag c name))
                    ((flag, h.0), h.1))
            | inr other ↦ elim (Bool-cases (has_name value_options name)) [
              | inl valued ↦
                  rw (option, named, other, valued)
                    (value-IsDeclared (split_option arg).1 (thrown (requires_value name))
                      (λ v. parsed (set_option c name v)) tt (λ v. (h.0, (valued, h.1))))
              | inr unknown ↦ rw (option, named, other, unknown) tt
            ]
          ]
        ]
      ]
  parse_loop-IsDeclared false c (arg ∷ next ∷ rest) h =
      let name = (split_option arg).0 in
      elim (Bool-cases (is_positional arg)) [
        | inl positional ↦
            rw positional (parse_loop-IsDeclared false (push_arg c arg) (next ∷ rest) h)
        | inr option ↦ elim (Bool-cases (str_eq arg (codes "--"))) [
          | inl dashes ↦ rw (option, dashes) (parse_loop-IsDeclared true c (next ∷ rest) h)
          | inr named ↦ elim (Bool-cases (has_name flags name)) [
            | inl flag ↦
                rw (option, named, flag)
                  (flag-IsDeclared (split_option arg).1 name
                    (parse_loop flags value_options false (insert_flag c name) (next ∷ rest))
                    (parse_loop-IsDeclared false (insert_flag c name) (next ∷ rest)
                      ((flag, h.0), h.1)))
            | inr other ↦ elim (Bool-cases (has_name value_options name)) [
              | inl valued ↦
                  rw (option, named, other, valued)
                    (value-IsDeclared (split_option arg).1
                      (parse_loop flags value_options false (set_option c name next) rest)
                      (λ v.
                        parse_loop flags value_options false (set_option c name v) (next ∷ rest))
                      (parse_loop-IsDeclared false (set_option c name next) rest
                        (h.0, (valued, h.1)))
                      (λ v.
                        parse_loop-IsDeclared false (set_option c name v) (next ∷ rest)
                          (h.0, (valued, h.1))))
              | inr unknown ↦ rw (option, named, other, unknown) tt
            ]
          ]
        ]
      ]

  has_name-All :
      (names : List Bytes) (name : Bytes)
      → All (λ n. has_name flags n ≡ true) names
      → has_name names name ≡ true
      → has_name flags name ≡ true
  unfolding has_name
  has_name-All [] name h e = absurd cc
  has_name-All (x ∷ xs) name h e = elim (Bool-cases (str_eq x name)) [
    | inl same ↦ rw ((str_eq_iff x name).0 same) at h.0
    | inr other ↦ has_name-All xs name h.1 (rw other at e)
  ]

  find_option-All :
      (options : List (Bytes × Bytes)) (name : Bytes) {value : Bytes}
      → All (λ (o : Bytes × Bytes). has_name value_options o.0 ≡ true) options
      → find_option options name ≡ some value
      → has_name value_options name ≡ true
  unfolding find_option
  find_option-All [] name h e = absurd cc
  find_option-All ((key, v) ∷ rest) name h e = elim (Bool-cases (str_eq key name)) [
    | inl same ↦ rw ((str_eq_iff key name).0 same) at h.0
    | inr other ↦ find_option-All rest name h.1 (rw other at e)
  ]

  -- A command line that is accepted has no flags but the declared ones, and values for the declared value
  -- options only.
  pub parse-declared :
      (args : List Bytes) (c : CommandLine) (name value : Bytes)
      → parse flags value_options args ≡ parsed c
      → (has_flag c name ≡ true → has_name flags name ≡ true)
        × (get_option c name ≡ some value → has_name value_options name ≡ true)
  unfolding parse has_flag get_option
  parse-declared args c name value e =
      let declared = rw e at (
        parse_loop-IsDeclared false (record { args = []; flags = []; options = [] }) args
          (tt, tt)) in
      (has_name-All c.flags name declared.0, find_option-All c.options name declared.1)

  parse_loop-true :
      (c : CommandLine) (args : List Bytes)
      → parse_loop flags value_options true c args ≡ parsed (record c { args = c.args ++ args })
  unfolding parse_loop
  parse_loop-true c [] = rw append-nil
  parse_loop-true c (arg ∷ args) = rw (parse_loop-true (push_arg c arg) args) (rw (append_assoc))

  parse_loop-positional :
      (c : CommandLine) (arg : Bytes) (rest : List Bytes)
      → is_positional arg ≡ true
      → parse_loop flags value_options false c (arg ∷ rest)
        ≡ parse_loop flags value_options false (push_arg c arg) rest
  unfolding parse_loop
  parse_loop-positional c arg [] h = rw h
  parse_loop-positional c arg (next ∷ rest) h = rw h

  parse_loop-stop :
      (c : CommandLine) (behind : List Bytes)
      → parse_loop flags value_options false c (codes "--" ∷ behind)
        ≡ parse_loop flags value_options true c behind
  unfolding parse_loop is_positional str_eq
  parse_loop-stop c [] = refl
  parse_loop-stop c (b ∷ behind) = refl

  parse_loop-dashes :
      (c : CommandLine) (before behind : List Bytes)
      → All (λ arg. is_positional arg ≡ true) before
      → parse_loop flags value_options false c (before ++ (codes "--" ∷ behind))
        ≡ parsed (record c { args = c.args ++ (before ++ behind) })
  parse_loop-dashes c [] behind h = parse_loop-stop c behind ∙ parse_loop-true c behind
  parse_loop-dashes c (x ∷ before) behind h =
      rw
        (
          parse_loop-positional c x (before ++ (codes "--" ∷ behind)) h.0,
          parse_loop-dashes (push_arg c x) before behind h.1,
        )
        (rw append_assoc)

  -- Behind plain arguments and a `--`, every argument is taken as it is, also one that looks like an
  -- option.
  pub parse-dashes :
      (before behind : List Bytes)
      → All (λ arg. is_positional arg ≡ true) before
      → parse flags value_options (before ++ (codes "--" ∷ behind))
        ≡ parsed (record { args = before ++ behind; flags = []; options = [] })
  unfolding parse
  parse-dashes before behind h = parse_loop-dashes _ before behind h
