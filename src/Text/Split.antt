-- ===== src/Text/Split.antt =====
-- Split and joining again.
use pcbu_desktop.Base.{
  ℕ, zero, suc, ◌≤◌, ◌≡◌, ◌≢◌, refl, ap, ◌∙◌, inl, inr, List, [], ◌∷◌, ◌++◌, none, Option-cases,
  Bytes, All, length, length-append, arith,
}
use pcbu_desktop.Text.{find_split, split_loop, split}
use pcbu_desktop.Text.Find.{
  Without, find_split-append, find_split_before, find_split_shorter, find_split_byte,
  find_split-Without, find_split_empty,
}

-- The tokens with the separator between them.
abbrev pub join : Bytes → List Bytes → Bytes
join sep [] = []
join sep (t ∷ []) = t
join sep (t ∷ u ∷ ts) = t ++ (sep ++ join sep (u ∷ ts))

-- `split_loop` never returns an empty list.
pub split_loop-cons :
    (fuel : ℕ) (delim text : Bytes)
    → (t : Bytes) × (ts : List Bytes) × (split_loop fuel delim text ≡ t ∷ ts)
unfolding split_loop
split_loop-cons zero delim text = (text, [], refl)
split_loop-cons (suc fuel) delim text = elim (Option-cases (find_split delim text)) [
  | inl e ↦ (text, [], rw (e, split_loop))
  | inr ((before, behind), e) ↦ (before, split_loop fuel delim behind, rw (e, split_loop))
]

pub split-cons :
    (text delim : Bytes) → (t : Bytes) × (ts : List Bytes) × (split text delim ≡ t ∷ ts)
unfolding split
split-cons text delim = split_loop-cons (length text) delim text

-- The separator need not be the delimiter.
pub join-split_loop-cons :
    (fuel : ℕ) (delim sep before behind : Bytes)
    → join sep (before ∷ split_loop fuel delim behind)
      ≡ before ++ (sep ++ join sep (split_loop fuel delim behind))
join-split_loop-cons fuel delim sep before behind =
    let (t, ts, e) = split_loop-cons fuel delim behind in rw e

join-split_loop : (fuel : ℕ) (delim text : Bytes) → join delim (split_loop fuel delim text) ≡ text
unfolding split_loop
join-split_loop zero delim text = refl
join-split_loop (suc fuel) delim text = elim (Option-cases (find_split delim text)) [
  | inl e ↦ rw (e, split_loop)
  | inr ((before, behind), e) ↦
      rw (e, split_loop)
        (join-split_loop-cons fuel delim delim before behind
          ∙ ap (λ rest. before ++ (delim ++ rest)) (join-split_loop fuel delim behind)
          ∙ find_split-append delim text e)
]

abbrev pub IsFree : Bytes → Bytes → Type 0
IsFree delim token = find_split delim token ≡ none

split_loop-IsFree :
    (fuel : ℕ) (delim text : Bytes)
    → delim ≢ []
    → length text ≤ fuel
    → All (IsFree delim) (split_loop fuel delim text)
unfolding split_loop
split_loop-IsFree zero delim [] ne h = (find_split_empty delim ne, tt)
split_loop-IsFree zero delim (x ∷ xs) ne h = absurd (omega arith)
split_loop-IsFree (suc fuel) delim text ne h = elim (Option-cases (find_split delim text)) [
  | inl e ↦ rw (e, split_loop) (e, tt)
  | inr ((before, behind), e) ↦
      rw (e, split_loop)
        (
          find_split_before delim text ne e,
          split_loop-IsFree fuel delim behind ne
              (omega (arith, find_split_shorter delim text ne e)),
        )
]

-- For a delimiter with bytes, the tokens of Split, joined by the delimiter, are the text, and none of
-- them contains the delimiter.
pub split-join :
    (text delim : Bytes)
    → delim ≢ []
    → (join delim (split text delim) ≡ text) × All (IsFree delim) (split text delim)
unfolding split
split-join text delim ne = (
  join-split_loop (length text) delim text,
  split_loop-IsFree (length text) delim text ne (omega arith),
)

split_loop-join :
    (d : ℕ) (t : Bytes) (ts : List Bytes) (fuel : ℕ)
    → All (Without d) (t ∷ ts)
    → length (join (d ∷ []) (t ∷ ts)) ≤ fuel
    → split_loop fuel (d ∷ []) (join (d ∷ []) (t ∷ ts)) ≡ t ∷ ts
unfolding split_loop
split_loop-join d t [] zero h enough = refl
split_loop-join d t [] (suc fuel) h enough = rw (find_split-Without d t h.0, split_loop)
split_loop-join d t (u ∷ ts) zero h enough =
    absurd (omega (arith, length-append t (d ∷ join (d ∷ []) (u ∷ ts))))
split_loop-join d t (u ∷ ts) (suc fuel) h enough =
    rw (find_split_byte d t (join (d ∷ []) (u ∷ ts)) h.0, split_loop)
      (ap (◌∷◌ t) (
        split_loop-join d u ts fuel h.1
          (omega (arith, length-append t (d ∷ join (d ∷ []) (u ∷ ts))))))

-- For a delimiter of one byte, Split undoes joining: a non-empty list of tokens without that byte comes
-- back.
pub split-join_byte :
    (d : ℕ) (t : Bytes) (ts : List Bytes)
    → All (Without d) (t ∷ ts)
    → split (join (d ∷ []) (t ∷ ts)) (d ∷ []) ≡ t ∷ ts
unfolding split
split-join_byte d t ts h = split_loop-join d t ts _ h (omega arith)
