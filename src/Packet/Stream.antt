-- ===== src/Packet/Stream.antt =====
-- Reading does not depend on how the transport cuts the bytes into arrivals: each loop of
-- BaseConnection.cpp against the same loop on all the bytes at once.
use mathlib.Core.List.{append_assoc, append-nil}
use pcbu_desktop.Base.{
  ℕ, zero, suc, ◌-◌, ◌≤◌, ◌<◌, ◌≡◌, refl, sym, ◌∙◌, ◌⊎◌, inl, inr, false, [], ◌∷◌, ◌++◌, none, some,
  leb, if◌then◌else◌, Bool-cases, Bytes, length, take, drop, length-append, take-append_le,
  drop-append_le, take-append_ge, drop-append_ge, arith,
}
use pcbu_desktop.Packet.{
  Incoming, got, failed, no_error, is_error, scan_byte, scan_chunk, scan_header, read_loop,
}

-- The bytes that a schedule brings.
abbrev pub pending : Incoming → Bytes
pending [] = []
pending (got bs ∷ rest) = bs ++ pending rest
pending (failed e ∷ rest) = pending rest

-- A schedule with no failed read.
abbrev pub IsHealthy : Incoming → Type 0
IsHealthy [] = Unit {0}
IsHealthy (got bs ∷ rest) = IsHealthy rest
IsHealthy (failed e ∷ rest) = (is_error e ≡ false) × IsHealthy rest

-- The header is complete within `xs`, or the loop goes on with the count that `xs` reaches.
scan_chunk-append :
    (k : ℕ) (xs ys : Bytes)
    → k < 8
    → scan_chunk k (xs ++ ys) ≡ (
        if leb 8 (scan_chunk k xs).0
        then ((scan_chunk k xs).0, (scan_chunk k xs).1 ++ ys)
        else scan_chunk (scan_chunk k xs).0 ys)
unfolding scan_chunk
scan_chunk-append k [] ys h = ground arith
scan_chunk-append k (x ∷ xs) ys h = ground (arith, scan_chunk-append (scan_byte k x) xs ys)

-- What a read of `n` bytes does: it waits, or it gives the first `n` bytes and leaves the others.
abbrev pub ReadsFirst : ℕ → Bytes → Incoming → Type 0
ReadsFirst n buffer arrivals =
    ((length (pending arrivals) < n) × (read_loop n buffer arrivals ≡ none))
    ⊎ ((rest : Incoming) × (n ≤ length (pending arrivals))
        × (read_loop n buffer arrivals
            ≡ some ((no_error, buffer ++ take n (pending arrivals)), rest))
        × (pending rest ≡ drop n (pending arrivals))
        × IsHealthy rest)

module _ (n : ℕ) (buffer : Bytes) where
  ReadsFirst-next :
      (bs : Bytes) (arrivals : Incoming)
      → length bs < suc n
      → ReadsFirst (suc n - length bs) (buffer ++ bs) arrivals
      → ReadsFirst (suc n) buffer (got bs ∷ arrivals)
  unfolding read_loop
  ReadsFirst-next bs arrivals h (inl (short, e)) =
      inl (omega (arith, length-append bs (pending arrivals)), ground arith)
  ReadsFirst-next bs arrivals h (inr (rest, enough, e, left, healthy)) = inr (
    rest,
    omega (arith, length-append bs (pending arrivals)),
    ground (
      arith,
      take-append_ge (suc n) bs (pending arrivals),
      append_assoc buffer bs (take (suc n - length bs) (pending arrivals)),
    ),
    left ∙ sym (drop-append_ge (suc n) bs (pending arrivals) (omega arith)),
    healthy,
  )

pub read_loop-ReadsFirst :
    (n : ℕ) (buffer : Bytes) (arrivals : Incoming)
    → IsHealthy arrivals
    → ReadsFirst n buffer arrivals
unfolding read_loop
read_loop-ReadsFirst zero buffer arrivals h =
    inr (arrivals, omega arith, ground (arith, append-nil buffer), refl, h)
read_loop-ReadsFirst (suc n) buffer [] h = inl (omega arith, refl)
read_loop-ReadsFirst (suc n) buffer (failed e ∷ arrivals) h =
    rw h.0 (read_loop-ReadsFirst (suc n) buffer arrivals h.1)
read_loop-ReadsFirst (suc n) buffer (got bs ∷ arrivals) h =
    elim (Bool-cases (leb (suc n) (length bs))) [
      | inl enough ↦ inr (
        got (drop (suc n) bs) ∷ arrivals,
        ground (arith, length-append bs (pending arrivals)),
        rw (enough, take-append_le (suc n) bs (pending arrivals) (ground arith)),
        sym (drop-append_le (suc n) bs (pending arrivals) (ground arith)),
        h,
      )
      | inr short ↦
          ReadsFirst-next n buffer bs arrivals (ground arith)
            (read_loop-ReadsFirst (suc n - length bs) (buffer ++ bs) arrivals h)
    ]

-- What the header loop does.
abbrev pub ScansFirst : ℕ → Incoming → Type 0
ScansFirst k arrivals =
    (((scan_chunk k (pending arrivals)).0 < 8) × (scan_header k arrivals ≡ none))
    ⊎ ((rest : Incoming) × (8 ≤ (scan_chunk k (pending arrivals)).0)
        × (scan_header k arrivals ≡ some (no_error, rest))
        × (pending rest ≡ (scan_chunk k (pending arrivals)).1)
        × IsHealthy rest)

pub scan_header-ScansFirst :
    (k : ℕ) (arrivals : Incoming) → k < 8 → IsHealthy arrivals → ScansFirst k arrivals
unfolding scan_header
scan_header-ScansFirst k [] h healthy = inl (h, refl)
scan_header-ScansFirst k (failed e ∷ arrivals) h healthy =
    rw healthy.0 (scan_header-ScansFirst k arrivals h healthy.1)
scan_header-ScansFirst k (got bs ∷ arrivals) h healthy =
    let joined = scan_chunk-append k bs (pending arrivals) h in
    elim (Bool-cases (leb 8 (scan_chunk k bs).0)) [
      | inl done ↦
          rw (joined, done)
            (inr (got (scan_chunk k bs).1 ∷ arrivals, ground arith, refl, refl, healthy))
      | inr more ↦
          rw (joined, more)
            (scan_header-ScansFirst (scan_chunk k bs).0 arrivals (ground arith) healthy)
    ]
