-- ===== src/Text.antt =====
-- Text helpers: common/src/utils/StringUtils.cpp. A std::string is its list of bytes.
pub mod Find
pub mod Split
pub mod Replace
pub mod Trim
mod Tests
use pcbu_desktop.Base.{
  ℕ, zero, suc, ◌+◌, ◌-◌, Bool, true, false, ◌&&◌, ◌||◌, List, [], ◌∷◌, ◌++◌, Option, none, some,
  map, ◌==◌, ltb, leb, if◌then◌else◌, Bytes, codes, length, take, drop, starts_with, is_empty,
}

-- `text.find(needle)`: what stands before the first occurrence, and what stands behind it.
unfoldable pub find_split : Bytes → Bytes → Option (Bytes × Bytes)
find_split needle [] = if starts_with [] needle then some ([], drop (length needle) []) else none
find_split needle (x ∷ xs) =
    let later = find_split needle xs in
    if starts_with (x ∷ xs) needle
    then some ([], drop (length needle) (x ∷ xs))
    else elim later [ none ↦ none | some (before, behind) ↦ some (x ∷ before, behind) ]

-- The loop of `Replace`: `rest` is the text from `startPos` on, and what stands before it is done.
-- An empty replacement moves `startPos` one byte on, as `toLen` is 1 then.
unfoldable pub replace_loop : ℕ → Bytes → Bytes → Bytes → Bytes
unfolding find_split
replace_loop zero from to rest = rest
replace_loop (suc fuel) from to rest = elim (find_split from rest) [
  | none ↦ rest
  | some (before, behind) ↦
      before
      ++ (if is_empty to
          then take 1 behind ++ replace_loop fuel from to (drop 1 behind)
          else to ++ replace_loop fuel from to behind)
]

unfoldable pub replace : Bytes → Bytes → Bytes → Bytes
unfolding replace_loop
replace text from to = if is_empty from then text else replace_loop (length text) from to text

unfoldable pub shell_quote : Bytes → Bytes
unfolding replace
shell_quote text = codes "'" ++ (replace text (codes "'") (codes "'\\''") ++ codes "'")

-- The loop of `Split`: `rest` is the text from `pos_start` on. The delimiter is not empty; with an empty
-- one the source's loop does not end.
unfoldable pub split_loop : ℕ → Bytes → Bytes → List Bytes
unfolding find_split
split_loop zero delim rest = rest ∷ []
split_loop (suc fuel) delim rest = elim (find_split delim rest) [
  | none ↦ rest ∷ []
  | some (before, behind) ↦ before ∷ split_loop fuel delim behind
]

unfoldable pub split : Bytes → Bytes → List Bytes
unfolding split_loop
split text delim = split_loop (length text) delim text

-- `std::isspace` in the C locale.
abbrev pub is_space : ℕ → Bool
is_space c = c == b' ' || leb 9 c && leb c 13

unfoldable pub ltrim : Bytes → Bytes
ltrim [] = []
ltrim (c ∷ cs) = if is_space c then ltrim cs else c ∷ cs

unfoldable pub rtrim : Bytes → Bytes
rtrim [] = []
rtrim (c ∷ cs) = let rest = rtrim cs in if is_space c && is_empty rest then [] else c ∷ rest

unfoldable pub trim : Bytes → Bytes
unfolding ltrim rtrim
trim text = ltrim (rtrim text)

abbrev upper : ℕ → ℕ
upper c = if leb b'a' c && leb c b'z' then c - 32 else c

abbrev lower : ℕ → ℕ
lower c = if leb b'A' c && leb c b'Z' then c + 32 else c

unfoldable pub to_upper : Bytes → Bytes
to_upper = map upper

unfoldable pub to_lower : Bytes → Bytes
to_lower = map lower

unfoldable pub truncate : Bytes → ℕ → Bytes → Bytes
truncate text max_len ellipsis =
    if ltb max_len (length text)
    then if ltb (length ellipsis) max_len
      then take (max_len - length ellipsis) text ++ ellipsis
      else take max_len text
    else text
