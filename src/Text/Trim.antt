-- ===== src/Text/Trim.antt =====
-- What Trim and Truncate keep.
use mathlib.Core.List.{append_assoc}
use pcbu_desktop.Base.{
  ℕ, ◌-◌, ◌≤◌, ◌<◌, ◌≡◌, refl, sym, ap, ◌∙◌, ◌⊎◌, inl, inr, true, false, ◌&&◌, [], ◌∷◌, ◌++◌,
  if◌then◌else◌, Bool-cases, Bytes, All, length, take, length-append, length-take, is_empty, arith,
}
use pcbu_desktop.Text.{is_space, ltrim, rtrim, trim, truncate}

abbrev pub IsSpace : ℕ → Type 0
IsSpace c = is_space c ≡ true

abbrev pub StartsSolid : Bytes → Type 0
StartsSolid [] = Unit {0}
StartsSolid (c ∷ cs) = is_space c ≡ false

abbrev pub EndsSolid : Bytes → Type 0
EndsSolid [] = Unit {0}
EndsSolid (c ∷ []) = is_space c ≡ false
EndsSolid (c ∷ d ∷ cs) = EndsSolid (d ∷ cs)

ltrim_parts :
    (text : Bytes)
    → (front : Bytes) × (front ++ ltrim text ≡ text) × All IsSpace front × StartsSolid (ltrim text)
unfolding ltrim
ltrim_parts [] = ([], refl, tt, tt)
ltrim_parts (c ∷ cs) = elim (Bool-cases (is_space c)) [
  | inl space ↦
      let (front, e, spaces, solid) = ltrim_parts cs in
      rw space (c ∷ front, ap (◌∷◌ c) e, (space, spaces), solid)
  | inr solid ↦ rw solid ([], refl, tt, solid)
]

EndsSolid-ltrim : (text : Bytes) → EndsSolid text → EndsSolid (ltrim text)
unfolding ltrim
EndsSolid-ltrim [] h = tt
EndsSolid-ltrim (c ∷ []) h = rw h h
EndsSolid-ltrim (c ∷ d ∷ cs) h = elim (Bool-cases (is_space c)) [
  | inl space ↦ rw space (EndsSolid-ltrim (d ∷ cs) h)
  | inr solid ↦ rw solid h
]

record RtrimParts (text kept : Bytes) : Type 0 where
  back : Bytes
  splits : kept ++ back ≡ text
  spaces : All IsSpace back
  solid : EndsSolid kept

RtrimParts-cons :
    (c : ℕ) (cs kept : Bytes)
    → RtrimParts cs kept
    → RtrimParts (c ∷ cs) (if is_space c && is_empty kept then [] else c ∷ kept)
RtrimParts-cons c cs [] p = elim (Bool-cases (is_space c)) [
  | inl space ↦ rw space (record {
    back = c ∷ p.back;
    splits = ap (◌∷◌ c) p.splits;
    spaces = (space, p.spaces);
    solid = tt;
  })
  | inr solid ↦
      rw solid
        (record { back = p.back; splits = ap (◌∷◌ c) p.splits; spaces = p.spaces; solid = solid })
]
RtrimParts-cons c cs (k ∷ kept) p = elim (Bool-cases (is_space c)) [
  | inl space ↦
      rw space
        (record { back = p.back; splits = ap (◌∷◌ c) p.splits; spaces = p.spaces; solid = p.solid })
  | inr solid ↦
      rw solid
        (record { back = p.back; splits = ap (◌∷◌ c) p.splits; spaces = p.spaces; solid = p.solid })
]

rtrim-RtrimParts : (text : Bytes) → RtrimParts text (rtrim text)
unfolding rtrim
rtrim-RtrimParts [] = record { back = []; splits = refl; spaces = tt; solid = tt }
rtrim-RtrimParts (c ∷ cs) = RtrimParts-cons c cs (rtrim cs) (rtrim-RtrimParts cs)

-- Trim removes white space from both ends and nothing else: the text is white space, the result, and
-- white space again, and the result neither starts nor ends with white space.
pub trim_parts :
    (text : Bytes)
    → (front back : Bytes) × (front ++ (trim text ++ back) ≡ text)
      × All IsSpace front
      × All IsSpace back
      × StartsSolid (trim text)
      × EndsSolid (trim text)
unfolding trim
trim_parts text =
    let right = rtrim-RtrimParts text in
    let (front, e, spaces, solid) = ltrim_parts (rtrim text) in
    (
      front,
      right.back,
      sym (append_assoc front (ltrim (rtrim text)) right.back)
          ∙ ap (λ t. t ++ right.back) e
          ∙ right.splits,
      spaces,
      right.spaces,
      solid,
      EndsSolid-ltrim (rtrim text) right.solid,
    )

-- Truncate never gives more than `max_len` bytes, and a text that fits is returned as it is.
pub truncate_bounds :
    (text : Bytes) (max_len : ℕ) (ellipsis : Bytes)
    → (length (truncate text max_len ellipsis) ≤ max_len)
      × ((truncate text max_len ellipsis ≡ text) ⊎ (max_len < length text))
unfolding truncate
truncate_bounds text max_len ellipsis = ground (
  arith,
  length-append (take (max_len - length ellipsis) text) ellipsis,
  length-take (max_len - length ellipsis) text,
  length-take max_len text,
)
