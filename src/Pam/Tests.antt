-- ===== src/Pam/Tests.antt =====
-- The PAM helper on one configuration file.
use pcbu_desktop.Base.{◌≡◌, refl, true, [], ◌∷◌, none, some, if◌then◌else◌, codes, str_eq}
use pcbu_desktop.Pam.{Pam, config_path, seen_file, find_change, commit}
use pcbu_desktop.Pam.Commit.{commit-seen_file}

abbrev sudo_pending : Pam
sudo_pending = record {
  files = λ path. if str_eq path (config_path (codes "sudo")) then some (codes "auth") else none;
  pending =
      (config_path (codes "sudo"), some (codes "auth2")) ∷ (config_path (codes "su"), none) ∷ [];
}

commit-seen_file_example :
    ((commit sudo_pending (λ _. true)).0.files (config_path (codes "sudo"))
      ≡ seen_file sudo_pending (config_path (codes "sudo")))
    × ((commit sudo_pending (λ _. true)).0.pending ≡ [])
    × ((commit sudo_pending (λ _. true)).1 ≡ none)
unfolding find_change str_eq
commit-seen_file_example =
    commit-seen_file sudo_pending (λ _. true) (config_path (codes "sudo")) (λ _. refl)
      (refl, (refl, tt))
