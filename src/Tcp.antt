-- ===== src/Tcp.antt =====
-- The client of unlocks over TCP: common/src/connection/unlock/clients/TCPUnlockClient.cpp up to the auth
-- flow, and the wait of common/src/connection/BaseConnection.cpp, on Linux.
--
-- The answers of the operating system are arguments, and so is what m_IsRunning is when it is read. The
-- socket is a flag: whether m_ClientSocket is open.
pub mod Retries
mod Tests
use pcbu_desktop.Base.{
  ℕ, ◌+◌, Bool, true, false, not, ◌&&◌, ◌||◌, List, [], ◌∷◌, Option, none, some, ltb, if◌then◌else◌,
}
use pcbu_desktop.Unlock.State.{
  UnlockState, UnlockPhase, connect_error, unk_error, client_connecting,
}

-- One slice of WaitForConnection: m_IsRunning, what `poll` answers, and whether the deadline is over.
pub data PollResult : Type 0 where
  poll_ready poll_nothing poll_failed : PollResult

pub record WaitTurn : Type 0 where
  pub is_running : Bool
  pub poll : PollResult
  pub is_late : Bool

abbrev pub is_nothing : PollResult → Bool
is_nothing poll_nothing = true
is_nothing _ = false

-- `none` while it waits.
unfoldable pub wait_for_connection : List WaitTurn → Option PollResult
wait_for_connection [] = none
wait_for_connection (t ∷ ts) =
    let later = wait_for_connection ts in
    if not t.is_running
    then some poll_nothing
    else if not (is_nothing t.poll) || t.is_late
    then some t.poll
    else later

pub data ConnectResult : Type 0 where
  connected in_progress connect_failed : ConnectResult

-- What one pass from `socketStart` on meets, in order; `is_running` is the flag behind the wait, and
-- `has_error` is SO_ERROR, `none` where it cannot be read.
pub record Attempt : Type 0 where
  pub has_socket : Bool
  pub sets_timeout : Bool
  pub sets_blocking : Bool
  pub sets_nodelay : Bool
  pub connects : ConnectResult
  pub waits : List WaitTurn
  pub is_running : Bool
  pub has_error : Option Bool

pub record Client : Type 0 where
  pub is_running : Bool
  pub state : UnlockState
  pub phase : UnlockPhase
  pub is_open : Bool

-- Where a pass leads: the auth flow, the end of the thread, another pass, or none of them while it waits.
pub data Pass : Type 0 where
  waiting : Pass
  established ended again : Client → Pass

unfoldable pub start : Client → Client
start c = if c.is_running then c else record c { is_running = true; phase = client_connecting }

-- `threadEnd`, which closes the socket if it is open.
unfoldable pub thread_end : Client → Pass
thread_end c = ended (record c { is_running = false; is_open = false })

abbrev pub is_connect_failed : ConnectResult → Bool
is_connect_failed connect_failed = true
is_connect_failed _ = false

-- The part of a pass behind SO_ERROR.
unfoldable pub after_so_error : ℕ → ℕ → Client → Attempt → Option Bool → Pass
unfolding thread_end
after_so_error max_retries num_retries c a none = thread_end (record c { state = unk_error })
after_so_error max_retries num_retries c a (some false) = established c
after_so_error max_retries num_retries c a (some true) =
    if ltb num_retries max_retries && a.is_running
    then again (record c { is_open = false })
    else thread_end (record c { state = connect_error })

-- The part of a pass behind the wait.
unfoldable pub after_wait : ℕ → ℕ → Client → Attempt → Option PollResult → Pass
unfolding after_so_error thread_end
after_wait max_retries num_retries c a none = waiting
after_wait max_retries num_retries c a (some poll_ready) =
    after_so_error max_retries num_retries c a a.has_error
after_wait max_retries num_retries c a (some _) =
    if ltb num_retries max_retries && a.is_running
    then again (record c { is_open = false; state = connect_error })
    else thread_end (record c { state = connect_error })

unfoldable pub attempt : ℕ → ℕ → Client → Attempt → Pass
unfolding after_wait wait_for_connection thread_end
attempt max_retries num_retries c a =
    if not a.has_socket
    then ended (record c { is_running = false; state = unk_error; is_open = false })
    else let opened = record c { is_open = true } in
      if not a.sets_timeout || not a.sets_blocking || not a.sets_nodelay
      then thread_end (record opened { state = unk_error })
      else if is_connect_failed a.connects
      then thread_end (record opened { state = connect_error })
      else after_wait max_retries num_retries opened a (wait_for_connection a.waits)

-- `goto socketStart`, where a pass leads to it.
abbrev pub and_again : Pass → (Client → Pass) → Pass
and_again waiting next = waiting
and_again (established c) next = established c
and_again (ended c) next = ended c
and_again (again c) next = next c

-- The passes of ConnectThread, with the number of retries so far.
unfoldable pub attempts : ℕ → ℕ → Client → List Attempt → Pass
unfolding attempt
attempts max_retries num_retries c [] = again c
attempts max_retries num_retries c (a ∷ rest) =
    and_again (attempt max_retries num_retries c a)
      (λ d. attempts max_retries (num_retries + 1) d rest)

-- The whole ConnectThread; `has_address` is what `inet_pton` answers.
unfoldable pub connect_thread : ℕ → Bool → Client → List Attempt → Pass
unfolding attempts
connect_thread max_retries has_address c passes =
    if not has_address
    then ended (record c { is_running = false; state = unk_error })
    else attempts max_retries 0 c passes
