-- ===== src/Text/Tests.antt =====
-- The text helpers on concrete texts.
use pcbu_desktop.Base.{◌≡◌, ◌≤◌, ◌<◌, ◌⊎◌, some, codes, length}
use pcbu_desktop.Text.{shell_quote, truncate}
use pcbu_desktop.Text.Replace.{sh_word, outside, sh_word-shell_quote}
use pcbu_desktop.Text.Trim.{truncate_bounds}

sh_word-shell_quote_example : sh_word outside (shell_quote (codes "it's")) ≡ some (codes "it's")
sh_word-shell_quote_example = sh_word-shell_quote (codes "it's")

truncate_bounds_example :
    (length (truncate (codes "abcdef") 4 (codes "...")) ≤ 4)
    × ((truncate (codes "abcdef") 4 (codes "...") ≡ codes "abcdef") ⊎ (4 < length (codes "abcdef")))
truncate_bounds_example = truncate_bounds (codes "abcdef") 4 (codes "...")
