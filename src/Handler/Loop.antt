-- ===== src/Handler/Loop.antt =====
-- What the loop of RunServer and its result promise.
use pcbu_desktop.Base.{
  ℕ, ◌+◌, ◌≡◌, ◌≢◌, ◌<◌, refl, sym, ap, ◌∙◌, ◌⊎◌, inl, inr, Bool, true, false, not, List, [], ◌∷◌,
  Option, none, some, Bytes, Option-cases, All, arith,
}
use pcbu_desktop.Device.{PairedDevice}
use pcbu_desktop.Unlock.State.{UnlockState, UnlockPhase, success, canceled}
use pcbu_desktop.Unlock.{ResponseData}
use pcbu_desktop.Crypt.{OpenSsl, HexCoder, decrypt_aes_text, crypt_packet_timeout}
use pcbu_desktop.Handler.{UnlockResult}
use pcbu_desktop.Handler.Server.{
  Observation, Loop, is_phone_unlocking, is_connect_error, watch_phase, resume_broadcast, run_turn,
  run_loop, server_result, result_from, finish_run, run_server,
}

abbrev pub Follows : Bool → UnlockPhase → Type 0
Follows is_broadcasting phase = is_broadcasting ≡ not (is_phone_unlocking phase)

-- Whether a broadcaster runs after some calls of Start and Stop, the last call first.
abbrev pub is_on_air : Bool → List Bool → Bool
is_on_air was_on [] = was_on
is_on_air was_on (call ∷ calls) = call

-- If the loop's flag tells whether the broadcaster runs, then a turn that goes on has called Start or Stop such
-- that the broadcaster runs exactly while no phone is unlocking, and the flag still tells it.
pub run_turn-broadcast :
    (connection : ℕ) (was_on : Bool) (l : Loop) (o : Observation)
    → is_on_air was_on l.broadcasts ≡ l.is_broadcasting
    → (run_turn connection l o).1 ≡ none
    → let after = (run_turn connection l o).0 in
      Follows (is_on_air was_on after.broadcasts) o.phase × Follows after.is_broadcasting o.phase
unfolding run_turn watch_phase resume_broadcast
run_turn-broadcast connection was_on l o told h = ground arith

run_turn-state :
    (connection : ℕ) (l : Loop) (o : Observation)
    → ((run_turn connection l o).1 ≡ none)
      ⊎ (((run_turn connection l o).1 ≡ some o.polled)
          ⊎ (((run_turn connection l o).1 ≡ some canceled)
              ⊎ ((run_turn connection l o).1 ≡ some UnlockState.timeout)))
unfolding run_turn
run_turn-state connection l o = ground arith

abbrev pub HasPolled : UnlockState → List Observation → Type 0
HasPolled state [] = ⊥
HasPolled state (o ∷ os) = (o.polled ≡ state) ⊎ HasPolled state os

module _ (connection : ℕ) (l : Loop) (o : Observation) (os : List Observation) where
  run_loop-ends :
      {state : UnlockState}
      → (run_turn connection l o).1 ≡ some state
      → (run_loop connection l (o ∷ os)).1 ≡ some state
  unfolding run_loop
  run_loop-ends e = rw (e, run_loop) refl

  run_loop-continues :
      (run_turn connection l o).1 ≡ none
      → run_loop connection l (o ∷ os) ≡ run_loop connection (run_turn connection l o).0 os
  unfolding run_loop
  run_loop-continues e = rw (e, run_loop) refl

run_loop-success :
    (connection : ℕ) (l : Loop) (os : List Observation)
    → (run_loop connection l os).1 ≡ some success
    → HasPolled success os
unfolding run_loop
run_loop-success connection l [] h = absurd cc
run_loop-success connection l (o ∷ os) h = elim (run_turn-state connection l o) [
  | inl e ↦ inr (
      run_loop-success connection (run_turn connection l o).0 os
        (rw (run_loop-continues connection l o os e) at h))
  | inr (inl e) ↦ let ended = run_loop-ends connection l o os e in inl cc
  | inr (inr (inl e)) ↦ let ended = run_loop-ends connection l o os e in absurd cc
  | inr (inr (inr e)) ↦ let ended = run_loop-ends connection l o os e in absurd cc
]

result_from-success :
    (decrypted : Option Bytes) (state : UnlockState) (device : PairedDevice) (answer : ResponseData)
    → let r = result_from decrypted state device answer in
      r.state ≡ success
      → (state ≡ success)
        × (decrypted ≡ some r.password)
        × (r.password_key ≡ answer.password_key)
        × (r.device ≡ device)
unfolding result_from
result_from-success none state device answer h = absurd (ground arith)
result_from-success (some password) state device answer h = (h, refl, rw h refl, refl)

finish_run-success :
    (ssl : OpenSsl) (coder : HexCoder) (connection : ℕ) (l : Loop) (ended : Option UnlockState)
    (device : PairedDevice) (answer : ResponseData) (r : UnlockResult)
    → (finish_run ssl coder connection l ended device answer).1 ≡ some r
    → r.state ≡ success
    → (ended ≡ some success)
      × (decrypt_aes_text ssl coder device.password_enc answer.password_key ≡ some r.password)
      × (r.password_key ≡ answer.password_key)
      × (r.device ≡ device)
unfolding finish_run server_result
finish_run-success ssl coder connection l none device answer r e h = absurd cc
finish_run-success ssl coder connection l (some state) device answer r e h =
    let decrypted = decrypt_aes_text ssl coder device.password_enc answer.password_key in
    let same : server_result ssl coder state device answer ≡ r = cc in
    let found =
      result_from-success decrypted state device answer
        (ap (λ (x : UnlockResult). x.state) same ∙ h) in
    (
      ap some found.0,
      found.1 ∙ ap (λ (x : UnlockResult). some x.password) same,
      sym (ap (λ (x : UnlockResult). x.password_key) same) ∙ found.2,
      sym (ap (λ (x : UnlockResult). x.device) same) ∙ found.3,
    )

-- RunServer returns a success only if PollResult gave one in some turn of its loop, and then with the
-- connection's device and its password, decrypted with the key that the phone gave.
pub run_server-success :
    (ssl : OpenSsl) (coder : HexCoder) (connection : ℕ) (is_started : Bool) (l : Loop)
    (os : List Observation) (device : PairedDevice) (answer : ResponseData) (r : UnlockResult)
    → (run_server ssl coder connection is_started l os device answer).1 ≡ some r
    → r.state ≡ success
    → HasPolled success os
      × (decrypt_aes_text ssl coder device.password_enc answer.password_key ≡ some r.password)
      × (r.password_key ≡ answer.password_key)
      × (r.device ≡ device)
unfolding run_server
run_server-success ssl coder connection false l os device answer r e h = absurd cc
run_server-success ssl coder connection true l os device answer r e h =
    let found =
      finish_run-success ssl coder connection (run_loop connection l os).0
        (run_loop connection l os).1 device answer r e h in
    (run_loop-success connection l os found.0, found.1, found.2, found.3)

abbrev pub IsQuiet : Observation → Type 0
IsQuiet o = (is_connect_error o.polled ≡ false)

abbrev pub HasTimedOut : ℕ → List Observation → Type 0
HasTimedOut start [] = ⊥
HasTimedOut start (o ∷ os) =
    ((is_phone_unlocking o.phase ≡ false) × (start + crypt_packet_timeout < o.now))
    ⊎ HasTimedOut start os

run_turn-quiet :
    (connection : ℕ) (l : Loop) (o : Observation)
    → IsQuiet o
    → (run_turn connection l o).1 ≡ none
    → ((run_turn connection l o).0.start_time ≡ l.start_time)
      × (is_phone_unlocking o.phase ≡ false → l.start_time + crypt_packet_timeout < o.now → ⊥)
unfolding run_turn watch_phase resume_broadcast
run_turn-quiet connection l o quiet h = ground arith

-- A loop that no connection error restarts ends by itself, at the latest in a turn in which no phone is
-- unlocking and the clock is past the packet timeout.
pub run_loop-timeout :
    (connection : ℕ) (l : Loop) (os : List Observation)
    → All IsQuiet os
    → HasTimedOut l.start_time os
    → (run_loop connection l os).1 ≢ none
run_loop-timeout connection l [] quiet h = elim h [ ]
run_loop-timeout connection l (o ∷ os) quiet h = elim (Option-cases (run_turn connection l o).1) [
  | inl e ↦
      let kept = run_turn-quiet connection l o quiet.0 e in
      elim h [
        | inl late ↦ absurd (kept.1 late.0 late.1)
        | inr later ↦
            rw (run_loop-continues connection l o os e)
              (run_loop-timeout connection (run_turn connection l o).0 os quiet.1 (rw kept.0 later))
      ]
  | inr (state, e) ↦ rw (run_loop-ends connection l o os e) (λ same. absurd cc)
]
