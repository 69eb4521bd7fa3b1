-- ===== src/Askpass/Match.antt =====
-- Which server a prompt is given.
use pcbu_desktop.Base.{
  ◌≡◌, ◌⊎◌, Bool, true, false, not, ◌&&◌, List, ◌∷◌, ◌++◌, Option, none, some, Bytes, is_empty, All,
}
use pcbu_desktop.Device.{SshServer, PairedDevice}
use pcbu_desktop.Askpass.{Boost, SshPrompt, matches_kind}

-- The first server with a property, and none before it has it.
abbrev pub IsFirst : (SshServer → Bool) → List SshServer → Option SshServer → Type 0
IsFirst test servers none = All (λ s. test s ≡ false) servers
IsFirst test servers (some found) =
    (before after : List SshServer) × (servers ≡ before ++ (found ∷ after))
    × (test found ≡ true)
    × All (λ s. test s ≡ false) before

module _ (boost : Boost) (home_dir : Bytes) (p : SshPrompt) (device : PairedDevice) where
  abbrev pub matches : SshServer → Bool
  matches s = matches_kind boost home_dir p p.kind s

  abbrev pub is_specific : SshServer → Bool
  is_specific s = matches s && not (is_empty s.user)

  -- The server for a prompt: for a password the first match with a user of its own, and if there is none, as
  -- for a key, the first match.
  abbrev pub IsBest : Bool → Option SshServer → Type 0
  IsBest false found = IsFirst matches device.ssh_servers found
  IsBest true none = All (λ s. matches s ≡ false) device.ssh_servers
  IsBest true (some found) =
      IsFirst is_specific device.ssh_servers (some found)
      ⊎ (All (λ s. is_specific s ≡ false) device.ssh_servers
          × IsFirst matches device.ssh_servers (some found))
