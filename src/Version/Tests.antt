-- ===== src/Version/Tests.antt =====
-- Versions at work.
use pcbu_desktop.Base.{◌≡◌, refl, codes, ◌∷◌, [], starts_with}
use pcbu_desktop.Text.{split, split_loop, find_split}
use pcbu_desktop.Version.{
  same, other_newer, compare_version, version_numbers, parse_parts, stoi, read_number, read_digits,
  compare_loop,
}
use pcbu_desktop.Version.Order.{Says, compare_version-Says}

compare_version-suffix : compare_version (codes "1.2") (codes "1.10.0-beta") ≡ other_newer
unfolding compare_version version_numbers parse_parts stoi read_number read_digits compare_loop
    split split_loop find_split starts_with
compare_version-suffix = refl

-- A version that is not one compares as the same as every other.
compare_version-not_a_version : compare_version (codes "4.0.0") (codes "x") ≡ same
unfolding compare_version version_numbers parse_parts stoi read_number read_digits split split_loop
    find_split starts_with
compare_version-not_a_version = refl

compare_version-Says_example :
    Says (compare_version (codes "1.2") (codes "1.10.0-beta")) (1 ∷ 2 ∷ []) (1 ∷ 10 ∷ 0 ∷ [])
unfolding version_numbers parse_parts stoi read_number read_digits split split_loop find_split
    starts_with
compare_version-Says_example = compare_version-Says (codes "1.2") (codes "1.10.0-beta") refl refl
