-- ===== src/Tcp/Retries.antt =====
-- The connecting thread of the TCP client ends.
use pcbu_desktop.Base.{
  ℕ, ◌+◌, ◌≤◌, ◌<◌, ◌≡◌, refl, ◌⊎◌, inl, inr, Bool, true, false, not, ◌&&◌, ◌||◌, List, [], ◌∷◌,
  Option, none, some, ltb, if◌then◌else◌, Bool-cases, All, length, arith,
}
use pcbu_desktop.Unlock.State.{is_unknown, is_success, connect_error}
use pcbu_desktop.Tcp.{
  PollResult, poll_ready, poll_nothing, poll_failed, WaitTurn, is_nothing, wait_for_connection,
  Attempt, Client, Pass, waiting, established, ended, again, thread_end, after_so_error, after_wait,
  attempt, attempts, and_again, connect_thread, is_connect_failed,
}

-- A wait has an end: the client is stopped, the socket is ready or failed, or the deadline is over.
abbrev pub HasEnd : List WaitTurn → Type 0
HasEnd [] = ⊥
HasEnd (t ∷ ts) =
    (t.is_running ≡ false) ⊎ ((not (is_nothing t.poll) || t.is_late) ≡ true) ⊎ HasEnd ts

-- The thread ended with an error and a closed socket, or it goes on to the auth flow with an open one.
abbrev pub IsSettled : Pass → Type 0
IsSettled waiting = ⊥
IsSettled (again c) = ⊥
IsSettled (established c) = c.is_open ≡ true
IsSettled (ended c) =
    (c.is_running ≡ false)
    × (c.is_open ≡ false)
    × (is_unknown c.state ≡ false)
    × (is_success c.state ≡ false)

-- A pass settles the thread, or there are retries left.
abbrev IsPassed : ℕ → ℕ → Pass → Type 0
IsPassed max_retries num_retries (again c) = num_retries < max_retries
IsPassed max_retries num_retries pass = IsSettled pass

wait_for_connection_ends :
    (ts : List WaitTurn) → HasEnd ts → (r : PollResult) × (wait_for_connection ts ≡ some r)
unfolding wait_for_connection
wait_for_connection_ends [] h = absurd h
wait_for_connection_ends (t ∷ ts) h = elim (Bool-cases (not t.is_running)) [
  | inl stopped ↦ (poll_nothing, rw stopped refl)
  | inr runs ↦ elim (Bool-cases (not (is_nothing t.poll) || t.is_late)) [
    | inl done ↦ (t.poll, rw (runs, done) refl)
    | inr more ↦ elim h [
      | inl stopped ↦ absurd (ground arith)
      | inr (inl done) ↦ absurd cc
      | inr (inr later) ↦ let (r, e) = wait_for_connection_ends ts later in (r, rw (runs, more) e)
    ]
  ]
]

module _ (max_retries num_retries : ℕ) where
  after_so_error-IsPassed :
      (c : Client) (a : Attempt) (o : Option Bool)
      → c.is_open ≡ true
      → IsPassed max_retries num_retries (after_so_error max_retries num_retries c a o)
  unfolding after_so_error thread_end
  after_so_error-IsPassed c a none h = (refl, refl, refl, refl)
  after_so_error-IsPassed c a (some false) h = h
  after_so_error-IsPassed c a (some true) h =
      elim (Bool-cases (ltb num_retries max_retries && a.is_running)) [
        | inl more ↦ rw (more, IsPassed) (ground arith)
        | inr last ↦ rw (last, IsPassed) (refl, refl, refl, refl)
      ]

  retry-IsPassed :
      (c : Client) (a : Attempt)
      → IsPassed max_retries num_retries (
          if ltb num_retries max_retries && a.is_running
          then again (record c { is_open = false; state = connect_error })
          else thread_end (record c { state = connect_error }))
  unfolding thread_end
  retry-IsPassed c a = elim (Bool-cases (ltb num_retries max_retries && a.is_running)) [
    | inl more ↦ rw (more, IsPassed) (ground arith)
    | inr last ↦ rw (last, IsPassed) (refl, refl, refl, refl)
  ]

  after_wait-IsPassed :
      (c : Client) (a : Attempt) (r : PollResult)
      → c.is_open ≡ true
      → IsPassed max_retries num_retries (after_wait max_retries num_retries c a (some r))
  unfolding after_wait
  after_wait-IsPassed c a poll_ready h = after_so_error-IsPassed c a a.has_error h
  after_wait-IsPassed c a poll_nothing h = retry-IsPassed c a
  after_wait-IsPassed c a poll_failed h = retry-IsPassed c a

  attempt-IsPassed :
      (c : Client) (a : Attempt)
      → HasEnd a.waits
      → IsPassed max_retries num_retries (attempt max_retries num_retries c a)
  unfolding attempt thread_end
  attempt-IsPassed c a h = elim (Bool-cases (not a.has_socket)) [
    | inl missing ↦ rw (missing, IsPassed) (refl, refl, refl, refl)
    | inr opened ↦
        elim (Bool-cases (not a.sets_timeout || not a.sets_blocking || not a.sets_nodelay)) [
          | inl unset ↦ rw (opened, unset, IsPassed) (refl, refl, refl, refl)
          | inr ready ↦ elim (Bool-cases (is_connect_failed a.connects)) [
            | inl refused ↦ rw (opened, ready, refused, IsPassed) (refl, refl, refl, refl)
            | inr begun ↦
                let (r, e) = wait_for_connection_ends a.waits h in
                rw (opened, ready, begun, e, IsPassed)
                  (after_wait-IsPassed (record c { is_open = true }) a r refl)
          ]
        ]
  ]

and_again-IsSettled :
    (max_retries num_retries : ℕ) (p : Pass) (next : Client → Pass)
    → IsPassed max_retries num_retries p
    → ((c : Client) → num_retries < max_retries → IsSettled (next c))
    → IsSettled (and_again p next)
and_again-IsSettled max_retries num_retries waiting next h more = h
and_again-IsSettled max_retries num_retries (established c) next h more = h
and_again-IsSettled max_retries num_retries (ended c) next h more = h
and_again-IsSettled max_retries num_retries (again c) next h more = more c h

attempts-IsSettled :
    (max_retries num_retries : ℕ) (c : Client) (passes : List Attempt)
    → num_retries ≤ max_retries
    → max_retries < num_retries + length passes
    → All (λ a. HasEnd a.waits) passes
    → IsSettled (attempts max_retries num_retries c passes)
unfolding attempts
attempts-IsSettled max_retries num_retries c [] le h ends = absurd (omega arith)
attempts-IsSettled max_retries num_retries c (a ∷ passes) le h ends =
    and_again-IsSettled max_retries num_retries (attempt max_retries num_retries c a) _
      (attempt-IsPassed max_retries num_retries c a ends.0)
      (λ d lt.
        attempts-IsSettled max_retries (num_retries + 1) d passes (omega arith) (omega arith)
          ends.1)

-- The connecting thread needs at most one pass more than it has retries: after so many passes, whose waits
-- end, it goes on to the auth flow with an open socket, or has stopped with a closed socket and a state that
-- is neither unknown nor a success. It starts with no socket.
pub connect_thread-IsSettled :
    (max_retries : ℕ) (has_address : Bool) (c : Client) (passes : List Attempt)
    → c.is_open ≡ false
    → max_retries < length passes
    → All (λ a. HasEnd a.waits) passes
    → IsSettled (connect_thread max_retries has_address c passes)
unfolding connect_thread
connect_thread-IsSettled max_retries false c passes none_open h ends = (refl, none_open, refl, refl)
connect_thread-IsSettled max_retries true c passes none_open h ends =
    attempts-IsSettled max_retries 0 c passes (omega arith) (omega arith) ends
