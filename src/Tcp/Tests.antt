-- ===== src/Tcp/Tests.antt =====
-- A client whose first pass times out and whose second one connects.
use pcbu_desktop.Base.{refl, inl, inr, true, false, [], ◌∷◌, some, arith}
use pcbu_desktop.Unlock.State.{unknown, starting}
use pcbu_desktop.Tcp.{
  Attempt, Client, WaitTurn, poll_nothing, poll_ready, in_progress, connect_thread, start,
}
use pcbu_desktop.Tcp.Retries.{IsSettled, connect_thread-IsSettled}

abbrev late : WaitTurn
late = record { is_running = true; poll = poll_nothing; is_late = true }

abbrev timed_out : Attempt
timed_out = record {
  has_socket = true;
  sets_timeout = true;
  sets_blocking = true;
  sets_nodelay = true;
  connects = in_progress;
  waits = late ∷ [];
  is_running = true;
  has_error = some false;
}

abbrev reached : Attempt
reached = record timed_out { waits = record late { poll = poll_ready } ∷ [] }

abbrev client : Client
client = record { is_running = false; state = unknown; phase = starting; is_open = false }

connect_thread-IsSettled_example :
    IsSettled (connect_thread 1 true (start client) (timed_out ∷ reached ∷ []))
unfolding start
connect_thread-IsSettled_example =
    connect_thread-IsSettled 1 true (start client) (timed_out ∷ reached ∷ []) refl (omega arith)
      (inr (inl refl), (inr (inl refl), tt))
