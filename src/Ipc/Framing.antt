-- ===== src/Ipc/Framing.antt =====
-- A message that is written is read as the same message.
use pcbu_desktop.Base.{
  ℕ, ◌+◌, ◌%◌, ◌^◌, ◌≤◌, ◌<◌, ◌≡◌, refl, ap, ◌∙◌, true, false, List, [], ◌∷◌, ◌++◌, some, ltb,
  Bytes, length, take-append_self, drop-append_self, length-append, le→ltb, ne→==, arith,
}
use mathlib.Core.List.{append-nil, append_assoc}
use pcbu_desktop.Ipc.{
  max_json_size, max_blob_size, IpcMessage, le_bytes, le_value, Peer, is_too_large, read_exact,
  read_blob, read_json, read_message, write_exact, write_all, write_message,
}

le_value-le_bytes : (x : ℕ) → x < 2 ^ 32 → le_value (le_bytes 4 x) ≡ x
unfolding le_value le_bytes
le_value-le_bytes x h = omega arith

length-le_bytes : (x : ℕ) → length (le_bytes 4 x) ≡ 4
unfolding le_bytes
length-le_bytes x = refl

abbrev pub peer_with : Bytes → Bytes → Peer
peer_with incoming sent = record { connected = true; incoming = incoming; sent = sent }

read_exact-append :
    (n : ℕ) (bytes rest sent : Bytes)
    → length bytes ≡ n
    → read_exact (peer_with (bytes ++ rest) sent) n ≡ (peer_with rest sent, some bytes)
unfolding read_exact
read_exact-append n [] rest sent e = rw⁻¹ e refl
read_exact-append n (b ∷ bytes) rest sent e =
    let long : ltb (length ((b ∷ bytes) ++ rest)) n ≡ false =
      le→ltb _ _ (omega (arith, length-append bytes rest, e)) in
    rw (ne→== n 0 (λ zero_length. omega arith), long)
      (rw⁻¹ e (rw (take-append_self bytes rest, drop-append_self bytes rest) refl))

abbrev pub concat : List Bytes → Bytes
concat [] = []
concat (part ∷ parts) = part ++ concat parts

read_blob-bytes :
    (json blob rest sent : Bytes)
    → ltb max_blob_size (length blob) ≡ false
    → read_blob (peer_with (blob ++ rest) sent) json (length blob)
      ≡ (peer_with rest sent, some (record { json = json; blob = blob }))
unfolding read_blob
read_blob-bytes json blob rest sent fits =
    rw (fits) (rw (read_exact-append (length blob) blob rest sent refl) refl)

read_json-bytes :
    (json blob rest sent : Bytes)
    → 0 < length json
    → ltb max_json_size (length json) ≡ false
    → ltb max_blob_size (length blob) ≡ false
    → read_json
        (peer_with (json ++ (le_bytes 4 (length blob) ++ (blob ++ rest))) sent)
        (length json)
      ≡ (peer_with rest sent, some (record { json = json; blob = blob }))
unfolding read_json
read_json-bytes json blob rest sent some_json fits_json fits_blob =
    let small : length blob < 2 ^ 32 = ground arith in
    rw (ne→== (length json) 0 (λ e. omega arith), fits_json)
      (rw
        (read_exact-append (length json) json (le_bytes 4 (length blob) ++ (blob ++ rest)) sent
          refl)
        (rw
          (read_exact-append 4 (le_bytes 4 (length blob)) (blob ++ rest) sent
            (length-le_bytes (length blob)))
          (rw (le_value-le_bytes (length blob) small)
            (read_blob-bytes json blob rest sent fits_blob))))

-- The bytes of a message, and then some: the reader gives the message and leaves the rest.
read_message-bytes :
    (json blob rest sent : Bytes)
    → 0 < length json
    → ltb max_json_size (length json) ≡ false
    → ltb max_blob_size (length blob) ≡ false
    → read_message (
        peer_with
          (le_bytes 4 (length json) ++ (json ++ (le_bytes 4 (length blob) ++ (blob ++ rest))))
          sent)
      ≡ (peer_with rest sent, some (record { json = json; blob = blob }))
unfolding read_message
read_message-bytes json blob rest sent some_json fits_json fits_blob =
    let small : length json < 2 ^ 32 = ground arith in
    let more = json ++ (le_bytes 4 (length blob) ++ (blob ++ rest)) in
    rw (read_exact-append 4 (le_bytes 4 (length json)) more sent (length-le_bytes (length json))) (
      rw (le_value-le_bytes (length json) small)
        (read_json-bytes json blob rest sent some_json fits_json fits_blob))

write_all-works :
    (incoming sent : Bytes) (parts : List Bytes) (k : ℕ)
    → write_all (peer_with incoming sent) parts (λ _. true) k
      ≡ (peer_with incoming (sent ++ concat parts), true)
unfolding write_all write_exact
write_all-works incoming sent [] k = rw append-nil refl
write_all-works incoming sent ([] ∷ parts) k = write_all-works incoming sent parts (k + 1)
write_all-works incoming sent ((b ∷ bytes) ∷ parts) k =
    rw (ne→== (length (b ∷ bytes)) 0 (λ e. omega arith))
      (rw (write_all-works incoming (sent ++ (b ∷ bytes)) parts (k + 1)) (rw append_assoc refl))

append_parts :
    (a b c d rest : Bytes) → (a ++ (b ++ (c ++ (d ++ [])))) ++ rest ≡ a ++ (b ++ (c ++ (d ++ rest)))
append_parts a b c d rest = rw (append-nil d) (
    append_assoc a (b ++ (c ++ d)) rest
    ∙ ap (λ (t : Bytes). a ++ t)
        (append_assoc b (c ++ d) rest ∙ ap (λ (t : Bytes). b ++ t) (append_assoc c d rest)))

write_message-bytes :
    (json blob : Bytes)
    → ltb max_json_size (length json) ≡ false
    → ltb max_blob_size (length blob) ≡ false
    → write_message (peer_with [] []) (record { json = json; blob = blob }) (λ _. true) ≡ (
      peer_with []
          (le_bytes 4 (length json) ++ (json ++ (le_bytes 4 (length blob) ++ (blob ++ [])))),
      true,
    )
unfolding write_message is_too_large
write_message-bytes json blob fits_json fits_blob =
    let small_json : length json % 2 ^ 32 ≡ length json = ground arith in
    let small_blob : length blob % 2 ^ 32 ≡ length blob = ground arith in
    rw (fits_json, fits_blob)
      (rw (small_json, small_blob)
        (write_all-works [] []
          (le_bytes 4 (length json) ∷ json ∷ le_bytes 4 (length blob) ∷ blob ∷ []) 0))

-- A message with a JSON text, within the size limits, that is written to a connection whose writes all work
-- is read by the peer as the same message, and what is sent behind it is left for the next read.
pub read_message-write_message :
    (msg : IpcMessage) (rest sent : Bytes)
    → 0 < length msg.json
    → length msg.json ≤ max_json_size
    → length msg.blob ≤ max_blob_size
    → let w = write_message (peer_with [] []) msg (λ _. true) in
      (w.1 ≡ true)
      × (read_message (peer_with (w.0.sent ++ rest) sent) ≡ (peer_with rest sent, some msg))
read_message-write_message msg rest sent some_json fits_json fits_blob =
    let json_fits = le→ltb max_json_size (length msg.json) fits_json in
    let blob_fits = le→ltb max_blob_size (length msg.blob) fits_blob in
    rw (write_message-bytes msg.json msg.blob json_fits blob_fits) (
      refl,
      rw
          (append_parts (le_bytes 4 (length msg.json)) msg.json (le_bytes 4 (length msg.blob))
            msg.blob rest)
          (read_message-bytes msg.json msg.blob rest sent some_json json_fits blob_fits),
    )
