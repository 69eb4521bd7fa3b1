-- ===== src/Packet/RoundTrip.antt =====
-- What ReadPacket returns, on the bytes that arrive alone.
use mathlib.Core.List.{append_assoc}
use pcbu_desktop.Base.{
  ℕ, suc, ◌%◌, ◌^◌, ◌≤◌, ◌<◌, ◌≡◌, ◌≢◌, refl, ap, ◌∙◌, inl, inr, true, false, [], ◌∷◌, ◌++◌, Option,
  none, some, ltb, lt→ltb, le→ltb, eq→==, ne→==, ◌==◌, if◌then◌else◌, Bool-cases, Bytes, All,
  length, take, drop, length-append, length-take, take-append_self, drop-append_self, All-append,
  arith,
}
use pcbu_desktop.Packet.{
  Packet, Incoming, no_error, unknown, error_packet, be_bytes, be_value, header_bytes, scan_chunk,
  read_payload, read_length, read_id, read_packet, frame,
}
use pcbu_desktop.Packet.Stream.{pending, IsHealthy, read_loop-ReadsFirst, scan_header-ScansFirst}

-- The packet that stands at the front of the bytes: the payload, behind its length, behind its id,
-- behind the first complete header. `none` while bytes are missing.
abbrev pub unframe_payload : ℕ → ℕ → Bytes → Option (Packet × Bytes)
unframe_payload id size bytes =
    if ltb (length bytes) size
    then none
    else some (record { error = no_error; id = id; payload = take size bytes }, drop size bytes)

abbrev pub unframe_length : ℕ → Bytes → Option (Packet × Bytes)
unframe_length id bytes =
    if ltb (length bytes) 2
    then none
    else if be_value 0 (take 2 bytes) == 0
    then some (error_packet unknown, drop 2 bytes)
    else unframe_payload id (be_value 0 (take 2 bytes)) (drop 2 bytes)

abbrev pub unframe_id : Bytes → Option (Packet × Bytes)
unframe_id bytes =
    if ltb (length bytes) 2 then none else unframe_length (be_value 0 (take 2 bytes)) (drop 2 bytes)

abbrev pub unframe : Bytes → Option (Packet × Bytes)
unframe bytes = if ltb (scan_chunk 0 bytes).0 8 then none else unframe_id (scan_chunk 0 bytes).1

-- The reader and the specification wait together, or give the same packet and leave the same bytes.
abbrev pub Agrees : Option (Packet × Incoming) → Option (Packet × Bytes) → Type 0
Agrees none none = Unit {0}
Agrees (some (p, arrivals)) (some (q, bytes)) =
    (p ≡ q) × (pending arrivals ≡ bytes) × IsHealthy arrivals
Agrees _ _ = ⊥

module _ (n : ℕ) (xs : Bytes) (enough : n ≤ length xs) where
  length-take_all : (length (take n xs) == n) ≡ true
  length-take_all = eq→== _ _ (omega (arith, length-take n xs))

  not_short : ltb (length xs) n ≡ false
  not_short = le→ltb (length xs) n enough

read_payload-Agrees :
    (id size : ℕ) (arrivals : Incoming)
    → IsHealthy arrivals
    → Agrees (read_payload id size arrivals) (unframe_payload id size (pending arrivals))
unfolding read_payload
read_payload-Agrees id size arrivals h = elim (read_loop-ReadsFirst size [] arrivals h) [
  | inl (short, e) ↦ rw (e, read_payload, lt→ltb _ _ short) tt
  | inr (rest, enough, e, left, healthy) ↦
      rw (e, read_payload, length-take_all size _ enough, not_short size _ enough)
        (refl, left, healthy)
]

read_length-Agrees :
    (id : ℕ) (arrivals : Incoming)
    → IsHealthy arrivals
    → Agrees (read_length id arrivals) (unframe_length id (pending arrivals))
unfolding read_length
read_length-Agrees id arrivals h = elim (read_loop-ReadsFirst 2 [] arrivals h) [
  | inl (short, e) ↦ rw (e, read_length, lt→ltb _ _ short) tt
  | inr (rest, enough, e, left, healthy) ↦
      let size = be_value 0 (take 2 (pending arrivals)) in
      rw (e, read_length, length-take_all 2 _ enough, not_short 2 _ enough)
        (elim (Bool-cases (size == 0)) [
          | inl zeros ↦ rw zeros (refl, left, healthy)
          | inr some_bytes ↦ rw (some_bytes, ← left) (read_payload-Agrees id size rest healthy)
        ])
]

read_id-Agrees :
    (arrivals : Incoming)
    → IsHealthy arrivals
    → Agrees (read_id arrivals) (unframe_id (pending arrivals))
unfolding read_id
read_id-Agrees arrivals h = elim (read_loop-ReadsFirst 2 [] arrivals h) [
  | inl (short, e) ↦ rw (e, read_id, lt→ltb _ _ short) tt
  | inr (rest, enough, e, left, healthy) ↦
      rw (e, read_id, length-take_all 2 _ enough, not_short 2 _ enough, ← left)
        (read_length-Agrees (be_value 0 (take 2 (pending arrivals))) rest healthy)
]

-- On a stream without failed reads the reader agrees with the layout that is read off the whole text.
pub read_packet-unframe :
    (arrivals : Incoming)
    → IsHealthy arrivals
    → Agrees (read_packet arrivals) (unframe (pending arrivals))
unfolding read_packet
read_packet-unframe arrivals h = elim (scan_header-ScansFirst 0 arrivals (omega arith) h) [
  | inl (short, e) ↦ rw (e, read_packet, lt→ltb _ _ short) tt
  | inr (rest, enough, e, left, healthy) ↦
      rw (e, read_packet, le→ltb _ _ enough, ← left) (read_id-Agrees rest healthy)
]

abbrev pub IsNotFirst : ℕ → Type 0
IsNotFirst b = b ≢ 0xDB

scan_chunk-junk :
    (junk bytes : Bytes) → All IsNotFirst junk → scan_chunk 0 (junk ++ bytes) ≡ scan_chunk 0 bytes
unfolding scan_chunk be_bytes
scan_chunk-junk [] bytes h = refl
scan_chunk-junk (b ∷ junk) bytes h = ground (arith, h.0, scan_chunk-junk junk bytes h.1)

scan_chunk-header : (bytes : Bytes) → scan_chunk 0 (header_bytes ++ bytes) ≡ (8, bytes)
unfolding scan_chunk be_bytes
scan_chunk-header bytes = refl

be_value-be_bytes : (x : ℕ) → x < 2 ^ 16 → be_value 0 (be_bytes 2 x) ≡ x
unfolding be_value be_bytes
be_value-be_bytes x h = omega arith

module _ (x : ℕ) (bytes : Bytes) where
  take_word : take 2 (be_bytes 2 x ++ bytes) ≡ be_bytes 2 x
  unfolding be_bytes
  take_word = refl

  drop_word : drop 2 (be_bytes 2 x ++ bytes) ≡ bytes
  unfolding be_bytes
  drop_word = refl

  long_word : ltb (length (be_bytes 2 x ++ bytes)) 2 ≡ false
  unfolding be_bytes
  long_word = le→ltb (suc (suc (length bytes))) 2 (omega arith)

ruleset words = (take_word, drop_word, long_word)

module _ (id : ℕ) (payload rest : Bytes) (fits : length payload < 2 ^ 16) where
  unframe_payload-append :
      unframe_payload id (length payload) (payload ++ rest)
      ≡ some (record { error = no_error; id = id; payload = payload }, rest)
  unframe_payload-append = rw (
    le→ltb (length (payload ++ rest)) (length payload) (omega (arith, length-append payload rest)),
    take-append_self payload rest,
    drop-append_self payload rest,
  )

  payload_size : be_value 0 (be_bytes 2 (length payload % 2 ^ 16)) ≡ length payload
  payload_size = be_value-be_bytes (length payload % 2 ^ 16) (omega arith) ∙ omega arith

  unframe_length-append :
      0 < length payload
      → unframe_length id (be_bytes 2 (length payload % 2 ^ 16) ++ (payload ++ rest))
        ≡ some (record { error = no_error; id = id; payload = payload }, rest)
  unframe_length-append h =
      simp (words, payload_size)
        (rw (ne→== (length payload) 0 (omega arith)) unframe_payload-append)

unframe_id-append :
    (id : ℕ) (bytes : Bytes)
    → id < 2 ^ 16
    → unframe_id (be_bytes 2 id ++ bytes) ≡ unframe_length id bytes
unframe_id-append id bytes h =
    rw (long_word id bytes, take_word id bytes, drop_word id bytes, be_value-be_bytes id h)

-- ReadPacket's layout undoes WritePacket's: behind bytes other than 0xDB, a frame of a 16-bit id and of
-- 1 to 65535 bytes is read back whole, whatever follows it.
pub unframe-frame :
    (junk : Bytes) (id : ℕ) (payload rest : Bytes)
    → All IsNotFirst junk
    → id < 2 ^ 16
    → 0 < length payload
    → length payload < 2 ^ 16
    → unframe (junk ++ (frame id payload ++ rest))
      ≡ some (record { error = no_error; id = id; payload = payload }, rest)
unframe-frame junk id payload rest clean small some_bytes fits = rw scanned (
    unframe_id-append id (length_word ++ (payload ++ rest)) small
    ∙ unframe_length-append id payload rest fits some_bytes)
  where
    length_word : Bytes
    length_word = be_bytes 2 (length payload % 2 ^ 16)

    body : Bytes
    body = be_bytes 2 id ++ (length_word ++ payload)

    scanned :
        scan_chunk 0 (junk ++ (frame id payload ++ rest))
        ≡ (8, be_bytes 2 id ++ (length_word ++ (payload ++ rest)))
    scanned =
        scan_chunk-junk junk (frame id payload ++ rest) clean
        ∙ ap (scan_chunk 0) (append_assoc header_bytes body rest)
        ∙ scan_chunk-header (body ++ rest)
        ∙ ap (λ bytes. (8, bytes))
            (append_assoc (be_bytes 2 id) (length_word ++ payload) rest
              ∙ ap (◌++◌ (be_bytes 2 id)) (append_assoc length_word payload rest))

scan_chunk-stray :
    (bytes : Bytes) → scan_chunk 0 (0xDB ∷ (header_bytes ++ bytes)) ≡ scan_chunk 0 bytes
unfolding scan_chunk be_bytes
scan_chunk-stray bytes = refl

scan_chunk-clean : (bytes : Bytes) → All IsNotFirst bytes → scan_chunk 0 bytes ≡ (0, [])
unfolding scan_chunk be_bytes
scan_chunk-clean [] h = refl
scan_chunk-clean (b ∷ bytes) h = ground (arith, h.0, scan_chunk-clean bytes h.1)

Agrees-none : (r : Option (Packet × Incoming)) → Agrees r none → r ≡ none
Agrees-none none h = refl
Agrees-none (some (p, arrivals)) h = absurd h

module _ (arrivals : Incoming) (healthy : IsHealthy arrivals) (junk : Bytes) (id : ℕ)
    (payload rest : Bytes) where
  -- However a stream without failed reads cuts them: where bytes other than 0xDB stand before a frame
  -- of a 16-bit id and of 1 to 65535 bytes, ReadPacket returns that id and payload without an error,
  -- and leaves exactly what follows the frame.
  pub read_packet-frame :
      All IsNotFirst junk
      → id < 2 ^ 16
      → 0 < length payload
      → length payload < 2 ^ 16
      → pending arrivals ≡ junk ++ (frame id payload ++ rest)
      → Agrees
          (read_packet arrivals)
          (some (record { error = no_error; id = id; payload = payload }, rest))
  read_packet-frame clean small some_bytes fits e =
      rw (← unframe-frame junk id payload rest clean small some_bytes fits, ← e)
        (read_packet-unframe arrivals healthy)

  -- A single 0xDB right before a frame hides it: the header loop starts over behind the byte that broke
  -- the match and does not take that byte for a new first byte. If 0xDB does not occur in the frame's id,
  -- length and payload, nor before or after, ReadPacket never returns although a whole packet is there.
  pub read_packet-stray :
      All IsNotFirst junk
      → All IsNotFirst (be_bytes 2 id ++ (be_bytes 2 (length payload % 2 ^ 16) ++ payload))
      → All IsNotFirst rest
      → pending arrivals ≡ junk ++ (0xDB ∷ (frame id payload ++ rest))
      → read_packet arrivals ≡ none
  read_packet-stray clean body_clean rest_clean e =
      Agrees-none (read_packet arrivals) (rw (← hidden) (read_packet-unframe arrivals healthy))
    where
      body : Bytes
      body = be_bytes 2 id ++ (be_bytes 2 (length payload % 2 ^ 16) ++ payload)

      scanned : scan_chunk 0 (pending arrivals) ≡ (0, [])
      scanned =
          ap (scan_chunk 0) e
          ∙ scan_chunk-junk junk (0xDB ∷ (frame id payload ++ rest)) clean
          ∙ ap (λ bytes. scan_chunk 0 (0xDB ∷ bytes)) (append_assoc header_bytes body rest)
          ∙ scan_chunk-stray (body ++ rest)
          ∙ scan_chunk-clean (body ++ rest) (All-append IsNotFirst body rest body_clean rest_clean)

      hidden : unframe (pending arrivals) ≡ none
      hidden = rw scanned
