-- ===== src/Version.antt =====
-- Versions: AppInfo::CompareVersion and the protocol versions of common/src/utils/AppInfo.cpp.
--
-- `std::stoi` is written out for a part of a version. A part has no `-`, since the version is cut at it,
-- and so a number has no sign but `+`. An exception of `std::stoi` is `none`.
pub mod Order
mod Tests
use pcbu_desktop.Base.{
  ℕ, zero, suc, ◌+◌, ◌-◌, ◌*◌, ◌^◌, Bool, true, false, ◌&&◌, List, [], ◌∷◌, Option, none, some,
  ◌==◌, ltb, leb, if◌then◌else◌, Bytes, codes, length, get_or,
}
use pcbu_desktop.Text.{split, is_space}

unfoldable pub pairing_protocol_version : Bytes
pairing_protocol_version = codes "4.0.0"

abbrev pub is_digit : ℕ → Bool
is_digit c = leb b'0' c && leb c b'9'

-- The digits at the front of a text, read on from a value.
unfoldable pub read_digits : ℕ → Bytes → ℕ
read_digits acc [] = acc
read_digits acc (c ∷ cs) =
    let rest = read_digits (acc * 10 + (c - b'0')) cs in if is_digit c then rest else acc

-- A number must have a digit, and it must fit an `int`.
unfoldable pub read_number : Bytes → Option ℕ
unfolding read_digits
read_number [] = none
read_number (c ∷ cs) =
    if is_digit c
    then (if ltb (read_digits 0 (c ∷ cs)) (2 ^ 31) then some (read_digits 0 (c ∷ cs)) else none)
    else none

abbrev pub skip_plus : Bytes → Bytes
skip_plus [] = []
skip_plus (c ∷ cs) = if c == b'+' then cs else c ∷ cs

unfoldable pub stoi : Bytes → Option ℕ
unfolding read_number
stoi [] = none
stoi (c ∷ cs) = let rest = stoi cs in if is_space c then rest else read_number (skip_plus (c ∷ cs))

unfoldable pub parse_parts : List Bytes → Option (List ℕ)
unfolding stoi
parse_parts [] = some []
parse_parts (part ∷ parts) = elim (stoi part) [
  | none ↦ none
  | some n ↦ elim (parse_parts parts) [ none ↦ none | some ns ↦ some (n ∷ ns) ]
]

-- What stands before the first `-`, cut at its dots.
unfoldable pub version_numbers : Bytes → Option (List ℕ)
unfolding parse_parts split
version_numbers version = parse_parts (split (get_or (split version (codes "-")) 0 []) (codes "."))

-- The results 0, 1 and -1.
pub data Comparison : Type 0 where
  same other_newer this_newer : Comparison

-- The loop over the positions from `i` on, of which `n` are left.
unfoldable pub compare_loop : ℕ → ℕ → List ℕ → List ℕ → Comparison
compare_loop zero i these others = same
compare_loop (suc n) i these others =
    let rest = compare_loop n (i + 1) these others in
    let this_num = get_or these i 0 in
    let other_num = get_or others i 0 in
    if ltb this_num other_num
    then other_newer
    else if ltb other_num this_num
    then this_newer
    else rest

abbrev pub max_length : List ℕ → List ℕ → ℕ
max_length a b = if ltb (length a) (length b) then length b else length a

unfoldable pub compare_version : Bytes → Bytes → Comparison
unfolding version_numbers compare_loop
compare_version this_version other_version = elim (version_numbers this_version) [
  | none ↦ same
  | some these ↦ elim (version_numbers other_version) [
    | none ↦ same
    | some others ↦ compare_loop (max_length these others) 0 these others
  ]
]
