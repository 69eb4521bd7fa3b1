-- ===== src/Ipc.antt =====
-- Messages between the service and its clients: the framing of common/src/shell/IPCHelper.cpp.
--
-- A length is sent in the bytes of a `uint32_t` in memory, the low byte first. A timed read gives all the
-- bytes that it asks for if the peer sends as many, and a timed write answers whether it is done, which is
-- an argument of the model; either ends the connection when it fails.
pub mod Framing
mod Tests
use pcbu_desktop.Base.{
  ℕ, zero, suc, ◌+◌, ◌*◌, ◌/◌, ◌%◌, ◌^◌, Bool, true, false, not, ◌&&◌, ◌||◌, List, [], ◌∷◌, ◌++◌,
  Option, none, some, ◌==◌, ltb, if◌then◌else◌, Bytes, length, take, drop,
}

abbrev pub max_json_size : ℕ
max_json_size = 1024 * 1024

abbrev pub max_blob_size : ℕ
max_blob_size = 64 * 1024 * 1024

pub record IpcMessage : Type 0 where
  pub json : Bytes
  pub blob : Bytes

unfoldable pub le_bytes : ℕ → ℕ → Bytes
le_bytes zero x = []
le_bytes (suc n) x = (x % 256) ∷ le_bytes n (x / 256)

unfoldable pub le_value : Bytes → ℕ
le_value [] = 0
le_value (b ∷ bs) = b + 256 * le_value bs

-- The helper's end of a connection: the bytes that the peer sends in time, and those that were written.
pub record Peer : Type 0 where
  pub connected : Bool
  pub incoming : Bytes
  pub sent : Bytes

unfoldable pub is_too_large : IpcMessage → Bool
is_too_large msg = ltb max_json_size (length msg.json) || ltb max_blob_size (length msg.blob)

unfoldable pub read_exact : Peer → ℕ → Peer × Option Bytes
read_exact p n =
    if not p.connected
    then (p, none)
    else if n == 0
    then (p, some [])
    else if ltb (length p.incoming) n
    then (record p { connected = false }, none)
    else (record p { incoming = drop n p.incoming }, some (take n p.incoming))

-- What a reader does with the bytes of a read, if it gave them.
abbrev pub and_then :
    Peer × Option Bytes → (Peer → Bytes → Peer × Option IpcMessage) → Peer × Option IpcMessage
and_then (p, none) next = (p, none)
and_then (p, some bytes) next = next p bytes

unfoldable pub read_blob : Peer → Bytes → ℕ → Peer × Option IpcMessage
read_blob p json size =
    if ltb max_blob_size size
    then (record p { connected = false }, none)
    else and_then (read_exact p size) (λ q blob. (q, some (record { json = json; blob = blob })))

unfoldable pub read_json : Peer → ℕ → Peer × Option IpcMessage
read_json p size =
    if size == 0 || ltb max_json_size size
    then (record p { connected = false }, none)
    else and_then (read_exact p size)
        (λ q json. and_then (read_exact q 4) (λ r word. read_blob r json (le_value word)))

unfoldable pub read_message : Peer → Peer × Option IpcMessage
read_message p = and_then (read_exact p 4) (λ q word. read_json q (le_value word))

-- `works` is the answer of the timed write, if there is one.
unfoldable pub write_exact : Peer → Bytes → Bool → Peer × Bool
write_exact p bytes works =
    if not p.connected
    then (p, length bytes == 0)
    else if length bytes == 0
    then (p, true)
    else if works
    then (record p { sent = p.sent ++ bytes }, true)
    else (record p { connected = false }, false)

-- The writes of WriteMessage in order, up to the first that fails.
unfoldable pub write_all : Peer → List Bytes → (ℕ → Bool) → ℕ → Peer × Bool
unfolding write_exact
write_all p [] works k = (p, true)
write_all p (bytes ∷ rest) works k =
    let later = write_all (write_exact p bytes (works k)).0 rest works (k + 1) in
    if (write_exact p bytes (works k)).1 then later else ((write_exact p bytes (works k)).0, false)

unfoldable pub write_message : Peer → IpcMessage → (ℕ → Bool) → Peer × Bool
unfolding is_too_large write_all le_bytes
write_message p msg works =
    if is_too_large msg
    then (p, false)
    else write_all p
        (le_bytes 4 (length msg.json % 2 ^ 32)
          ∷ msg.json
          ∷ le_bytes 4 (length msg.blob % 2 ^ 32)
          ∷ msg.blob
          ∷ [])
        works 0
