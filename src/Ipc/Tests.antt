-- ===== src/Ipc/Tests.antt =====
-- One message of the service.
use pcbu_desktop.Base.{◌≡◌, true, [], ◌∷◌, ◌++◌, some, codes, arith}
use pcbu_desktop.Ipc.{IpcMessage, read_message, write_message}
use pcbu_desktop.Ipc.Framing.{peer_with, read_message-write_message}

abbrev hello : IpcMessage
hello = record { json = codes "{}"; blob = 1 ∷ 2 ∷ 3 ∷ [] }

read_message-write_message_example :
    ((write_message (peer_with [] []) hello (λ _. true)).1 ≡ true)
    × (read_message
          (peer_with ((write_message (peer_with [] []) hello (λ _. true)).0.sent ++ (9 ∷ [])) [])
        ≡ (peer_with (9 ∷ []) [], some hello))
read_message-write_message_example =
    read_message-write_message hello (9 ∷ []) [] (omega arith) (omega arith) (omega arith)
