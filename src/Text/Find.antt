-- ===== src/Text/Find.antt =====
-- `find_split` finds the first occurrence.
use pcbu_desktop.Base.{
  ℕ, ◌<◌, ◌≡◌, ◌≢◌, refl, ap, inl, inr, true, false, [], ◌∷◌, ◌++◌, Option, none, some, Bool-cases,
  Bytes, length, drop, starts_with, length-append, All, arith,
}
use pcbu_desktop.Text.{find_split}

starts_with-take :
    (text needle : Bytes)
    → starts_with text needle ≡ true
    → needle ++ drop (length needle) text ≡ text
unfolding starts_with
starts_with-take text [] h = refl
starts_with-take [] (y ∷ ys) h = cc
starts_with-take (x ∷ xs) (y ∷ ys) h = ground (arith, starts_with-take xs ys)

starts_with-nil : (text : Bytes) → starts_with text [] ≡ true
unfolding starts_with
starts_with-nil [] = refl
starts_with-nil (x ∷ xs) = refl

starts_with-nil_left : (needle : Bytes) → needle ≢ [] → starts_with [] needle ≡ false
unfolding starts_with
starts_with-nil_left [] ne = absurd (ne refl)
starts_with-nil_left (y ∷ ys) ne = refl

length_pos : (needle : Bytes) → needle ≢ [] → 0 < length needle
length_pos [] ne = absurd (ne refl)
length_pos (y ∷ ys) ne = omega arith

starts_with-append_left :
    (text needle more : Bytes)
    → starts_with text needle ≡ true
    → starts_with (text ++ more) needle ≡ true
unfolding starts_with
starts_with-append_left text [] more h = starts_with-nil (text ++ more)
starts_with-append_left [] (y ∷ ys) more h = cc
starts_with-append_left (x ∷ xs) (y ∷ ys) more h =
    ground (arith, starts_with-append_left xs ys more)

-- The first occurrence of the needle: no earlier position of the text starts it.
pub data Finds (needle : Bytes) : Bytes → Option (Bytes × Bytes) → Type 0 where
  here :
      {text behind : Bytes}
      → starts_with text needle ≡ true
      → needle ++ behind ≡ text
      → Finds needle text (some ([], behind))
  later :
      {x : ℕ} {xs before behind : Bytes}
      → starts_with (x ∷ xs) needle ≡ false
      → Finds needle xs (some (before, behind))
      → Finds needle (x ∷ xs) (some (x ∷ before, behind))
  at_end : starts_with [] needle ≡ false → Finds needle [] none
  nowhere :
      {x : ℕ} {xs : Bytes}
      → starts_with (x ∷ xs) needle ≡ false
      → Finds needle xs none
      → Finds needle (x ∷ xs) none

module _ (needle : Bytes) where
  Finds-step :
      (x : ℕ) (xs : Bytes) (r : Option (Bytes × Bytes))
      → starts_with (x ∷ xs) needle ≡ false
      → Finds needle xs r
      → Finds needle
          (x ∷ xs)
          (elim r [ none ↦ none | some (before, behind) ↦ some (x ∷ before, behind) ])
  Finds-step x xs none miss f = nowhere miss f
  Finds-step x xs (some (before, behind)) miss f = later miss f

  pub find_split-Finds : (text : Bytes) → Finds needle text (find_split needle text)
  unfolding find_split
  find_split-Finds [] = elim (Bool-cases (starts_with [] needle)) [
    | inl hit ↦ rw hit (here hit (starts_with-take [] needle hit))
    | inr miss ↦ rw miss (at_end miss)
  ]
  find_split-Finds (x ∷ xs) = elim (Bool-cases (starts_with (x ∷ xs) needle)) [
    | inl hit ↦ rw hit (here hit (starts_with-take (x ∷ xs) needle hit))
    | inr miss ↦ rw miss (Finds-step x xs (find_split needle xs) miss (find_split-Finds xs))
  ]

  Finds-append :
      {text before behind : Bytes}
      → Finds needle text (some (before, behind))
      → before ++ (needle ++ behind) ≡ text
  Finds-append (here h e) = e
  Finds-append (later {x} miss f) = ap (◌∷◌ x) (Finds-append f)

  -- A hit splits the text round the needle.
  pub find_split-append :
      (text : Bytes) {before behind : Bytes}
      → find_split needle text ≡ some (before, behind)
      → before ++ (needle ++ behind) ≡ text
  find_split-append text e = Finds-append (rw e at (find_split-Finds text))

  Finds-miss : {text : Bytes} → Finds needle text none → find_split needle text ≡ none
  unfolding find_split
  Finds-miss (at_end miss) = rw miss
  Finds-miss (nowhere miss f) = rw (miss, Finds-miss f)

  starts_with-shorter :
      (text more : Bytes)
      → starts_with (text ++ more) needle ≡ false
      → starts_with text needle ≡ false
  starts_with-shorter text more h = elim (Bool-cases (starts_with text needle)) [
    | inl hit ↦ absurd (cc (starts_with-append_left text needle more hit))
    | inr miss ↦ miss
  ]

  Finds-before :
      {text before behind : Bytes}
      → needle ≢ []
      → Finds needle text (some (before, behind))
      → Finds needle before none
  Finds-before ne (here h e) = at_end (starts_with-nil_left needle ne)
  Finds-before ne (later {x} {xs} {before} {behind} miss f) =
      nowhere (starts_with-shorter (x ∷ before) (needle ++ behind) (rw (← Finds-append f) at miss))
        (Finds-before ne f)

  -- What stands before the first occurrence has no occurrence.
  pub find_split_before :
      (text : Bytes) {before behind : Bytes}
      → needle ≢ []
      → find_split needle text ≡ some (before, behind)
      → find_split needle before ≡ none
  find_split_before text ne e = Finds-miss (Finds-before ne (rw e at (find_split-Finds text)))

  -- A hit of a needle with bytes leaves less text behind it.
  pub find_split_shorter :
      (text : Bytes) {before behind : Bytes}
      → needle ≢ []
      → find_split needle text ≡ some (before, behind)
      → length behind < length text
  find_split_shorter text {before} {behind} ne e = omega (
    arith,
    ap length (find_split-append text e),
    length-append before (needle ++ behind),
    length-append needle behind,
    length_pos needle ne,
  )

-- Bytes other than `d`.
abbrev pub Without : ℕ → Bytes → Type 0
Without d = All (λ b. b ≢ d)

pub find_split_byte :
    (d : ℕ) (before behind : Bytes)
    → Without d before
    → find_split (d ∷ []) (before ++ (d ∷ behind)) ≡ some (before, behind)
unfolding find_split starts_with
find_split_byte d [] behind h = ground arith
find_split_byte d (b ∷ before) behind h = ground (arith, h.0, find_split_byte d before behind h.1)

pub find_split-Without : (d : ℕ) (text : Bytes) → Without d text → find_split (d ∷ []) text ≡ none
unfolding find_split starts_with
find_split-Without d [] h = refl
find_split-Without d (b ∷ text) h = ground (arith, h.0, find_split-Without d text h.1)

pub Without-find_split : (d : ℕ) (text : Bytes) → find_split (d ∷ []) text ≡ none → Without d text
unfolding find_split starts_with
Without-find_split d [] h = tt
Without-find_split d (b ∷ text) h = (ground arith, Without-find_split d text (ground arith))

pub find_split_empty : (needle : Bytes) → needle ≢ [] → find_split needle [] ≡ none
unfolding find_split
find_split_empty needle ne = rw (starts_with-nil_left needle ne)
