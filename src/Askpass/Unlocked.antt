-- ===== src/Askpass/Unlocked.antt =====
-- What the program prints, and as whom.
use pcbu_desktop.Base.{
  ◌≡◌, refl, inl, inr, Bool, true, false, Option, none, some, Bytes, str_eq_iff, is_empty,
  Bool-cases, Option-cases, arith,
}
use pcbu_desktop.Device.{SshServer}
use pcbu_desktop.Crypt.{OpenSsl, HexCoder, decrypt_aes_text}
use pcbu_desktop.Unlock.State.{is_success}
use pcbu_desktop.Handler.{UnlockResult}
use pcbu_desktop.Askpass.{Boost, parse, find_match}
use pcbu_desktop.Askpass.Run.{
  Euid, user, RootGuard, inside, behind, World, Ended, exited, asks_tty, prints, matching_ids,
  server_password, unlocked_password, is_login_valid, answer_with, finish_unlock, run_unlock,
  run_matching, is_unknown_kind, run_main, run_as, askpass_main,
}

none-some : {x : Bytes} → none ≡ some x → ⊥
none-some {x} e = absurd cc

-- A guard gives the rights of root back, or ends the process.
IsUser : Option Euid → Type 0
IsUser none = Unit {0}
IsUser (some e) = e ≡ user

behind-IsUser : (g : RootGuard) → IsUser (behind g user)
unfolding IsUser behind
behind-IsUser g = elim (Bool-cases g.raises) [
  | inr stays ↦ rw (stays, IsUser) refl
  | inl up ↦ elim (Bool-cases g.drops) [
    | inl down ↦ rw (up, down, IsUser) refl
    | inr stuck ↦ rw (up, stuck, IsUser) tt
  ]
]

module _ (boost : Boost) (ssl : OpenSsl) (coder : HexCoder) (w : World) (raw : Bytes) where
  -- A text that is the password of a server that the prompt asks for, on a device of the user that has unlocked.
  pub record IsUnlocked (text : Bytes) : Type 0 where
    pub result : UnlockResult
    pub server : SshServer
    pub read_as : Euid
    pub asked_as : Euid
    pub asks :
        result
        ≡ w.unlock asked_as (matching_ids boost ssl coder w (parse boost raw) (w.devices read_as))
    pub wins : is_success result.state ≡ true
    pub is_own : w.user_name ≡ result.device.user_name
    pub fits : w.check_login asked_as result.password ≡ true
    pub finds : find_match boost w.home_dir (parse boost raw) result.device ≡ some server
    pub decrypts : decrypt_aes_text ssl coder server.password_enc result.password_key ≡ some text

  abbrev pub Means : Ended → Type 0
  Means exited = Unit {0}
  Means (asks_tty e) = e ≡ user
  Means (prints e text) = (e ≡ user) × IsUnlocked text

  answer_with-Means :
      (e : Euid) (o : Option Bytes)
      → e ≡ user
      → ((text : Bytes) → o ≡ some text → IsUnlocked text)
      → Means (answer_with e o)
  answer_with-Means e none h found = h
  answer_with-Means e (some text) h found = (h, found text refl)

  is_login_valid-own :
      (r : UnlockResult) (e : Euid)
      → is_login_valid boost ssl coder w e r ≡ true
      → (w.user_name ≡ r.device.user_name) × (w.check_login e r.password ≡ true)
  unfolding is_login_valid
  is_login_valid-own r e h =
      ((str_eq_iff w.user_name r.device.user_name).0 (ground arith), ground arith)

  unlocked_password-IsUnlocked :
      (r : UnlockResult) (reader e : Euid) (text : Bytes)
      → r ≡ w.unlock e (matching_ids boost ssl coder w (parse boost raw) (w.devices reader))
      → unlocked_password boost ssl coder w
          (parse boost raw)
          r
          (is_login_valid boost ssl coder w e r)
        ≡ some text
      → IsUnlocked text
  unfolding unlocked_password
  unlocked_password-IsUnlocked r reader e text asks h = elim (Bool-cases (is_success r.state)) [
    | inr lost ↦ absurd (none-some (rw lost at h))
    | inl won ↦ elim (Bool-cases (is_login_valid boost ssl coder w e r)) [
      | inr wrong ↦ absurd (none-some (rw (won, wrong) at h))
      | inl valid ↦ elim (Option-cases (find_match boost w.home_dir (parse boost raw) r.device)) [
        | inl missing ↦ absurd (none-some (rw (won, valid, missing, server_password) at h))
        | inr (server, found) ↦ record {
          result = r;
          server = server;
          read_as = reader;
          asked_as = e;
          asks = asks;
          wins = won;
          is_own = (is_login_valid-own r e valid).0;
          fits = (is_login_valid-own r e valid).1;
          finds = found;
          decrypts = rw (won, valid, found, server_password) at h;
        }
      ]
    ]
  ]

  finish_unlock-Means :
      (r : UnlockResult) (reader e : Euid) (after : Option Euid)
      → r ≡ w.unlock e (matching_ids boost ssl coder w (parse boost raw) (w.devices reader))
      → IsUser after
      → Means (
          finish_unlock boost ssl coder w
            (parse boost raw)
            r
            (is_login_valid boost ssl coder w e r)
            after)
  unfolding finish_unlock IsUser
  finish_unlock-Means r reader e none asks h = tt
  finish_unlock-Means r reader e (some now) asks h =
      answer_with-Means now _ h (λ text. unlocked_password-IsUnlocked r reader e text asks)

  run_matching-Means :
      (reader : Euid) (after : Option Euid)
      → IsUser after
      → Means (run_matching boost ssl coder w (parse boost raw) (w.devices reader) after)
  unfolding run_matching run_unlock IsUser
  run_matching-Means reader none h = tt
  run_matching-Means reader (some e) h =
      elim (Bool-cases
        (is_empty (matching_ids boost ssl coder w (parse boost raw) (w.devices reader)))) [
          | inl nothing ↦ rw (nothing, Means) h
          | inr something ↦
              rw (something, h)
                (finish_unlock-Means
                  (w.unlock (inside w.second_guard user)
                    (matching_ids boost ssl coder w (parse boost raw) (w.devices reader)))
                  reader (inside w.second_guard user) (behind w.second_guard user) refl
                  (behind-IsUser w.second_guard))
        ]

  run_main-Means : Means (run_main boost ssl coder w user raw)
  unfolding run_main
  run_main-Means = elim (Bool-cases (is_unknown_kind (parse boost raw).kind)) [
    | inl other ↦ rw (other, Means) refl
    | inr asks ↦ rw asks (
        run_matching-Means (inside w.first_guard user) (behind w.first_guard user)
          (behind-IsUser w.first_guard))
  ]

  run_as-Means : (after : Option Euid) → IsUser after → Means (run_as boost ssl coder w after raw)
  unfolding IsUser
  run_as-Means none h = tt
  run_as-Means (some e) h = rw h run_main-Means

  -- However its calls for rights are answered, the program prints and asks on the terminal only as the user
  -- who called it, or has ended. It prints only a password of a server that the prompt asks for, on the
  -- device of that user that the unlock handler gave with its success, and whose password the platform accepts, decrypted with the key that
  -- the phone gave.
  pub askpass_main-Means :
      (is_root drops : Bool) (log_guard : RootGuard)
      → Means (askpass_main boost ssl coder w is_root drops log_guard raw)
  unfolding askpass_main
  askpass_main-Means false drops log_guard = tt
  askpass_main-Means true false log_guard = tt
  askpass_main-Means true true log_guard =
      run_as-Means (behind log_guard user) (behind-IsUser log_guard)
