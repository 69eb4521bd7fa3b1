-- ===== src/Packet/Ends.antt =====
-- A transport that fails ends the loops of BaseConnection.cpp and ConnectionStream.cpp.
use pcbu_desktop.Base.{
  ℕ, zero, suc, ◌-◌, ◌≡◌, ◌⊎◌, inl, inr, Bool, true, false, not, ◌||◌, List, [], ◌∷◌, ◌++◌, Option,
  none, some, ◌==◌, leb, if◌then◌else◌, Bytes, Bool-cases, Option-cases, length, take, drop,
}
use pcbu_desktop.Packet.{
  PacketError, Incoming, got, failed, is_error, Acceptance, took, refused, scan_chunk, scan_header,
  read_loop, read_data, read_payload, read_length, read_id, read_packet, error_packet, be_value,
  flush_loop, Outgoing, flush, write, write_packet,
}

-- A schedule with a read that fails.
abbrev pub HasFailure : Incoming → Type 0
HasFailure [] = ⊥
HasFailure (got bs ∷ rest) = HasFailure rest
HasFailure (failed e ∷ rest) = (is_error e ≡ true) ⊎ HasFailure rest

-- A loop ends, and has met the failure or has left it for the next one.
abbrev Ends {ℓ} : {A : Type ℓ} → (A → PacketError) → Option (A × Incoming) → Type 0
Ends error_of none = ⊥
Ends error_of (some (a, rest)) = (is_error (error_of a) ≡ true) ⊎ HasFailure rest

scan_header-Ends :
    (k : ℕ) (arrivals : Incoming) → HasFailure arrivals → Ends (λ e. e) (scan_header k arrivals)
unfolding scan_header
scan_header-Ends k [] h = h
scan_header-Ends k (got bs ∷ arrivals) h = elim (Bool-cases (leb 8 (scan_chunk k bs).0)) [
  | inl done ↦ rw (done, Ends) (inr h)
  | inr more ↦ rw (more, Ends) (scan_header-Ends (scan_chunk k bs).0 arrivals h)
]
scan_header-Ends k (failed e ∷ arrivals) h = elim (Bool-cases (is_error e)) [
  | inl fails ↦ rw (fails, Ends) (inl fails)
  | inr fine ↦ elim h [
    | inl fails ↦ absurd cc
    | inr later ↦ rw (fine, Ends) (scan_header-Ends k arrivals later)
  ]
]

read_loop-Ends :
    (n : ℕ) (buffer : Bytes) (arrivals : Incoming)
    → HasFailure arrivals
    → Ends (λ (r : PacketError × Bytes). r.0) (read_loop n buffer arrivals)
unfolding read_loop
read_loop-Ends zero buffer arrivals h = inr h
read_loop-Ends (suc n) buffer [] h = h
read_loop-Ends (suc n) buffer (got bs ∷ arrivals) h = elim (Bool-cases (leb (suc n) (length bs))) [
  | inl enough ↦ rw (enough, Ends) (inr h)
  | inr short ↦ rw (short, Ends) (read_loop-Ends (suc n - length bs) (buffer ++ bs) arrivals h)
]
read_loop-Ends (suc n) buffer (failed e ∷ arrivals) h = elim (Bool-cases (is_error e)) [
  | inl fails ↦ rw (fails, Ends) (inl fails)
  | inr fine ↦ elim h [
    | inl fails ↦ absurd cc
    | inr later ↦ rw (fine, Ends) (read_loop-Ends (suc n) buffer arrivals later)
  ]
]

-- A step that needs a number of bytes, and what follows it.
abbrev pub Returns {ℓ} : {A : Type ℓ} → Option A → Type 0
Returns none = ⊥
Returns (some a) = Unit

Returns-if {ℓ} :
    {A : Type ℓ} (b : Bool) (x y : Option A) → Returns x → Returns y → Returns (if b then x else y)
Returns-if true x y hx hy = hx
Returns-if false x y hx hy = hy

-- Behind a read: an error returns, and without one the failure is still to come.
Returns-if_error {ℓ} :
    {A : Type ℓ} (e : PacketError) (b : Bool) (rest : Incoming) (x y : Option A)
    → (is_error e ≡ true) ⊎ HasFailure rest
    → Returns x
    → (HasFailure rest → Returns y)
    → Returns (if is_error e || b then x else y)
Returns-if_error e b rest x y (inl fails) hx hy = rw fails hx
Returns-if_error e b rest x y (inr later) hx hy = Returns-if (is_error e || b) x y hx (hy later)

module _ (arrivals : Incoming) (h : HasFailure arrivals) where
  -- What a read of some bytes gives, where it returns at all.
  read_data-Ends :
      (size : ℕ)
      → (r : (PacketError × Bytes) × Incoming) × (read_data size arrivals ≡ some r)
        × ((is_error r.0.0 ≡ true) ⊎ HasFailure r.1)
  read_data-Ends size = elim (Option-cases (read_data size arrivals)) [
    | inl e ↦ absurd (rw e at (read_loop-Ends size [] arrivals h))
    | inr (r, e) ↦ (r, e, rw e at (read_loop-Ends size [] arrivals h))
  ]

  read_payload-Returns : (id size : ℕ) → Returns (read_payload id size arrivals)
  unfolding read_payload
  read_payload-Returns id size =
      let (((e, bs), rest), eq, ends) = read_data-Ends size in
      rw (eq, read_payload, Returns)
        (Returns-if (is_error e || not (length bs == size)) (some (error_packet e, rest)) _ tt tt)

read_length-Returns :
    (arrivals : Incoming) (h : HasFailure arrivals) (id : ℕ) → Returns (read_length id arrivals)
unfolding read_length
read_length-Returns arrivals h id =
    let (((e, bs), rest), eq, ends) = read_data-Ends arrivals h 2 in
    rw (eq, read_length, Returns)
      (Returns-if_error e (not (length bs == 2)) rest _ _ ends tt (λ later.
        Returns-if (be_value 0 bs == 0) _ _ tt
          (read_payload-Returns rest later id (be_value 0 bs))))

read_id-Returns : (arrivals : Incoming) (h : HasFailure arrivals) → Returns (read_id arrivals)
unfolding read_id
read_id-Returns arrivals h =
    let (((e, bs), rest), eq, ends) = read_data-Ends arrivals h 2 in
    rw (eq, read_id, Returns)
      (Returns-if_error e (not (length bs == 2)) rest _ _ ends tt
        (λ later. read_length-Returns rest later (be_value 0 bs)))

-- ReadPacket returns over a transport that fails in some read, whatever it brings before.
pub read_packet-Returns :
    (arrivals : Incoming) → HasFailure arrivals → Returns (read_packet arrivals)
unfolding read_packet
read_packet-Returns arrivals h = elim (Option-cases (scan_header 0 arrivals)) [
  | inl e ↦ absurd (rw e at (scan_header-Ends 0 arrivals h))
  | inr ((e, rest), eq) ↦
      rw (eq, read_packet, Returns)
        (elim (rw eq at (scan_header-Ends 0 arrivals h)) [
          | inl fails ↦ rw fails tt
          | inr later ↦ Returns-if (is_error e) _ _ tt (read_id-Returns rest later)
        ])
]

-- A schedule of writes with one that fails.
abbrev pub HasRefusal : List Acceptance → Type 0
HasRefusal [] = ⊥
HasRefusal (took n ∷ ws) = HasRefusal ws
HasRefusal (refused e ∷ ws) = (is_error e ≡ true) ⊎ HasRefusal ws

flush_loop_ends :
    (sent bytes : Bytes) (ws : List Acceptance) → HasRefusal ws → Returns (flush_loop sent bytes ws)
unfolding flush_loop
flush_loop_ends sent [] ws h = tt
flush_loop_ends sent (b ∷ bs) [] h = h
flush_loop_ends sent (b ∷ bs) (took n ∷ ws) h =
    flush_loop_ends (sent ++ take n (b ∷ bs)) (drop n (b ∷ bs)) ws h
flush_loop_ends sent (b ∷ bs) (refused e ∷ ws) (inl fails) = rw fails tt
flush_loop_ends sent (b ∷ bs) (refused e ∷ ws) (inr later) =
    Returns-if (is_error e) _ _ tt (flush_loop_ends sent (b ∷ bs) ws later)

-- WritePacket returns over a transport that fails in some write, whatever it takes before.
pub write_packet_ends :
    (s : Outgoing) (id : ℕ) (payload : Bytes)
    → HasRefusal s.schedule
    → Returns (write_packet s id payload)
unfolding write_packet flush write
write_packet_ends s id payload h = flush_loop_ends s.sent _ s.schedule h
