-- ===== src/Handler/Server.antt =====
-- GetResult's choice of connections and the loop of RunServer, on Linux:
-- common/src/handler/UnlockHandler.cpp. What one turn of the loop reads is an `Observation`.
use pcbu_desktop.Base.{
  ℕ, ◌-◌, Bool, true, false, not, ◌&&◌, ◌||◌, List, [], ◌∷◌, ◌++◌, Option, none, some, ltb,
  if◌then◌else◌, Bytes, codes, str_eq, is_empty, keep,
}
use pcbu_desktop.Device.{PairingMethod, tcp, bluetooth, cloud, udp, manual_udp, PairedDevice}
use pcbu_desktop.Unlock.State.{
  UnlockState, UnlockPhase, canceled, connect_error, data_error, start_error, is_unknown,
  is_success, finished, phone_unlocking,
}
use pcbu_desktop.Unlock.{ResponseData}
use pcbu_desktop.Crypt.{OpenSsl, HexCoder, decrypt_aes_text, crypt_packet_timeout}
use pcbu_desktop.Handler.{Status, print_phase, print_message, UnlockResult, result_of}

-- A connection that GetResult makes, with its device or, for the server, its allowed devices.
pub data Endpoint : Type 0 where
  tcp_client bt_client : PairedDevice → Endpoint
  tcp_server : List PairedDevice → Endpoint

-- What the loop over the devices builds: the clients, the devices that are broadcast for with their port
-- and whether it is a manual one, and the devices of the server.
pub record Endpoints : Type 0 where
  pub clients : List Endpoint
  pub broadcasts : List (Bytes × ℕ × Bool)
  pub udp_devices : List PairedDevice

unfoldable pub add_endpoint : Endpoints → PairedDevice → PairingMethod → Endpoints
add_endpoint e device tcp = record e { clients = e.clients ++ (tcp_client device ∷ []) }
add_endpoint e device bluetooth = record e { clients = e.clients ++ (bt_client device ∷ []) }
add_endpoint e device manual_udp = record e {
  broadcasts = e.broadcasts ++ ((device.id, device.udp_manual_port, true) ∷ []);
  udp_devices = e.udp_devices ++ (device ∷ []);
}
add_endpoint e device udp = record e {
  broadcasts = e.broadcasts ++ ((device.id, device.udp_port, false) ∷ []);
  udp_devices = e.udp_devices ++ (device ∷ []);
}
add_endpoint e device cloud = e

unfoldable pub build_endpoints : Endpoints → List PairedDevice → Endpoints
unfolding add_endpoint
build_endpoints e [] = e
build_endpoints e (d ∷ ds) = build_endpoints (add_endpoint e d d.pairing_method) ds

unfoldable pub has_id : List Bytes → Bytes → Bool
unfolding str_eq
has_id [] id = false
has_id (x ∷ xs) id = str_eq x id || has_id xs id

-- The connections of a request for some device ids, or for any device where the list is empty. `none`
-- stands for the result NOT_PAIRED_ERROR.
unfoldable pub connections_for : List PairedDevice → List Bytes → Option (List Endpoint)
unfolding build_endpoints has_id
connections_for devices ids =
    let chosen = if is_empty ids then devices else keep (λ d. has_id ids d.id) devices in
    let e = build_endpoints (record { clients = []; broadcasts = []; udp_devices = [] }) chosen in
    let all =
      if is_empty e.udp_devices then e.clients else e.clients ++ (tcp_server e.udp_devices ∷ []) in
    if is_empty all then none else some all

-- What a turn of the loop of RunServer reads, in the order of its reads: whether another connection was
-- successful or the request was cancelled, the phase, the result of PollResult, IsRunning, the clock, and
-- whether both keys are down.
pub record Observation : Type 0 where
  pub is_stopped : Bool
  pub phase : UnlockPhase
  pub polled : UnlockState
  pub is_running : Bool
  pub now : ℕ
  pub cancel_keys : Bool

-- The local variables of the loop with the handler's status; `broadcasts` lists the calls of the
-- broadcaster's Start (true) and Stop (false), the last first; where there is no broadcaster they do nothing.
pub record Loop : Type 0 where
  pub status : Status
  pub is_broadcasting : Bool
  pub start_time : ℕ
  pub broadcasts : List Bool

abbrev pub is_phone_unlocking : UnlockPhase → Bool
is_phone_unlocking phone_unlocking = true
is_phone_unlocking _ = false

abbrev pub is_connect_error : UnlockState → Bool
is_connect_error connect_error = true
is_connect_error _ = false

-- The turn up to the broadcast's stop.
unfoldable pub watch_phase : ℕ → Loop → Observation → Loop
unfolding print_phase
watch_phase connection l o =
    let printed = record l { status = print_phase l.status connection o.phase } in
    if is_phone_unlocking o.phase && l.is_broadcasting
    then record printed { is_broadcasting = false; broadcasts = false ∷ l.broadcasts }
    else printed

unfoldable pub resume_broadcast : Loop → Observation → Loop
resume_broadcast l o =
    if not (is_phone_unlocking o.phase) && not l.is_broadcasting
    then record l { is_broadcasting = true; broadcasts = true ∷ l.broadcasts }
    else l

-- One turn: the state that ends the loop, if it ends.
unfoldable pub run_turn : ℕ → Loop → Observation → Loop × Option UnlockState
unfolding watch_phase resume_broadcast
run_turn connection l o =
    if o.is_stopped
    then (l, some canceled)
    else let watched = watch_phase connection l o in
      let retries = is_connect_error o.polled && o.is_running in
      let timed = if retries then record watched { start_time = o.now } else watched in
      if not retries && not (is_unknown o.polled)
      then (timed, some o.polled)
      else if not (is_phone_unlocking o.phase)
          && ltb crypt_packet_timeout (o.now - timed.start_time)
      then (timed, some UnlockState.timeout)
      else if o.cancel_keys
      then (timed, some canceled)
      else (resume_broadcast timed o, none)

-- The loop: `none` while it waits for more turns.
unfoldable pub run_loop : ℕ → Loop → List Observation → Loop × Option UnlockState
unfolding run_turn
run_loop connection l [] = (l, none)
run_loop connection l (o ∷ rest) =
    let later = run_loop connection (run_turn connection l o).0 rest in
    elim (run_turn connection l o).1 [
      | some state ↦ ((run_turn connection l o).0, some state)
      | none ↦ later
    ]

-- The result of RunServer from the decrypted password, if there is one.
unfoldable pub result_from : Option Bytes → UnlockState → PairedDevice → ResponseData → UnlockResult
result_from none state device answer =
    if is_success state
    then result_of data_error
    else record { state = state; device = device; password = []; password_key = [] }
result_from (some password) state device answer = record {
  state = state;
  device = device;
  password = password;
  password_key = if is_success state then answer.password_key else [];
}

-- The part of RunServer behind the loop: the password is decrypted with the key that the phone gave.
unfoldable pub server_result :
    OpenSsl → HexCoder → UnlockState → PairedDevice → ResponseData → UnlockResult
unfolding result_from
server_result ssl coder state device answer =
    result_from (decrypt_aes_text ssl coder device.password_enc answer.password_key) state device
      answer

-- RunServer behind its loop, if that has ended.
unfoldable pub finish_run :
    OpenSsl
    → HexCoder
    → ℕ
    → Loop
    → Option UnlockState
    → PairedDevice
    → ResponseData
    → Status × Option UnlockResult
unfolding server_result print_phase print_message
finish_run ssl coder connection l none device answer = (l.status, none)
finish_run ssl coder connection l (some state) device answer =
    let status = if is_success state then l.status else print_phase l.status connection finished in
    let r = server_result ssl coder state device answer in
    let failed = is_success state && not (is_success r.state) in
    (if failed then print_message status (codes "error_password_decrypt") else status, some r)

-- RunServer: `is_started` is the answer of the connection's Start, and `device` and `answer` are what the
-- connection holds at the end. There is no result while the loop waits.
unfoldable pub run_server :
    OpenSsl
    → HexCoder
    → ℕ
    → Bool
    → Loop
    → List Observation
    → PairedDevice
    → ResponseData
    → Status × Option UnlockResult
unfolding run_loop finish_run
run_server ssl coder connection false l os device answer = (l.status, some (result_of start_error))
run_server ssl coder connection true l os device answer =
    let (ended, state) = run_loop connection l os in
    finish_run ssl coder connection ended state device answer
