-- ===== src/Version/Order.antt =====
-- The order of versions: the loop of CompareVersion against the order by the first number that differs.
use pcbu_desktop.Base.{
  ℕ, zero, suc, ◌+◌, ◌≤◌, ◌<◌, ◌≡◌, refl, inl, inr, List, [], ◌∷◌, some, ltb, Bool-cases, Bytes,
  length, get_or, arith,
}
use pcbu_desktop.Version.{
  Comparison, same, other_newer, this_newer, compare_loop, max_length, version_numbers,
  compare_version,
}

-- Two versions have the same numbers at the positions before `i`; a number that is not there is 0.
abbrev pub SameTo : ℕ → List ℕ → List ℕ → Type 0
SameTo zero a b = Unit {0}
SameTo (suc i) a b = SameTo i a b × (get_or a i 0 ≡ get_or b i 0)

-- The first numbers that differ are at a position where the first version has the lower one.
abbrev pub IsOlder : List ℕ → List ℕ → Type 0
IsOlder a b = (i : ℕ) × SameTo i a b × (get_or a i 0 < get_or b i 0)

abbrev pub Says : Comparison → List ℕ → List ℕ → Type 0
Says same a b = (i : ℕ) → get_or a i 0 ≡ get_or b i 0
Says other_newer a b = IsOlder a b
Says this_newer a b = IsOlder b a

SameTo-sym : (i : ℕ) (a b : List ℕ) → SameTo i a b → SameTo i b a
SameTo-sym zero a b h = tt
SameTo-sym (suc i) a b h = (SameTo-sym i a b h.0, omega (arith, h.1))

SameTo-next :
    (i : ℕ) (a b : List ℕ) → SameTo i a b → get_or a i 0 ≡ get_or b i 0 → SameTo (i + 1) a b
SameTo-next i a b h e = let next : i + 1 ≡ suc i = omega arith in rw next (h, e)

get_or-SameTo : (n i : ℕ) (a b : List ℕ) → SameTo n a b → i < n → get_or a i 0 ≡ get_or b i 0
get_or-SameTo zero i a b h lt = absurd (omega arith)
get_or-SameTo (suc n) i a b h lt = elim (Bool-cases (ltb i n)) [
  | inl before ↦ get_or-SameTo n i a b h.0 (ground arith)
  | inr at_end ↦ let e : i ≡ n = ground arith in rw e h.1
]

get_or-past : (a : List ℕ) (i : ℕ) → length a ≤ i → get_or a i 0 ≡ 0
get_or-past [] i h = refl
get_or-past (x ∷ xs) zero h = absurd (omega arith)
get_or-past (x ∷ xs) (suc i) h = get_or-past xs i (omega arith)

compare_loop-Says :
    (n i : ℕ) (a b : List ℕ)
    → SameTo i a b
    → length a ≤ n + i
    → length b ≤ n + i
    → Says (compare_loop n i a b) a b
unfolding compare_loop
compare_loop-Says zero i a b h ha hb = λ j. elim (Bool-cases (ltb j i)) [
  | inl before ↦ get_or-SameTo i j a b h (ground arith)
  | inr past ↦
      let le : i ≤ j = ground arith in
      omega (arith, get_or-past a j (omega arith), get_or-past b j (omega arith))
]
compare_loop-Says (suc n) i a b h ha hb = elim (Bool-cases (ltb (get_or a i 0) (get_or b i 0))) [
  | inl older ↦ rw older (i, h, ground arith)
  | inr not_older ↦ elim (Bool-cases (ltb (get_or b i 0) (get_or a i 0))) [
    | inl newer ↦ rw (not_older, newer) (i, SameTo-sym i a b h, ground arith)
    | inr not_newer ↦
        rw (not_older, not_newer)
          (compare_loop-Says n (i + 1) a b (SameTo-next i a b h (ground arith)) (omega arith)
            (omega arith))
  ]
]

-- Two versions that are well formed compare by the first of their numbers that differ, a number that is not
-- there being 0, and compare as the same exactly if there is none.
pub compare_version-Says :
    (v w : Bytes) {a b : List ℕ}
    → version_numbers v ≡ some a
    → version_numbers w ≡ some b
    → Says (compare_version v w) a b
unfolding compare_version
compare_version-Says v w {a} {b} hv hw =
    rw (hv, hw, Says) (compare_loop-Says (max_length a b) 0 a b tt (ground arith) (ground arith))
