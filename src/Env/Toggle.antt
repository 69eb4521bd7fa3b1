-- ===== src/Env/Toggle.antt =====
-- Switching SSH on and off again.
use pcbu_desktop.Base.{
  ℕ, zero, suc, ◌≤◌, ◌≡◌, ◌≢◌, ◌⊎◌, ap, refl, inl, inr, Bool, true, false, not, ◌&&◌, [], ◌∷◌, ◌++◌,
  Option, none, some, ◌==◌, Bytes, starts_with, contains, starts_with-append, is_empty, length,
  drop, drop-append_self, Bool-cases, arith,
}
use pcbu_desktop.Text.{find_split, replace, replace_loop}
use pcbu_desktop.Env.{
  ssh_env_line, newline, ends_with_newline, pop_back, add_line, end_line, remove_line, Machine,
  text_of, write_text, set_ssh_enabled, has_symlink_below, is_ssh_enabled,
}

contains-starts_with :
    (text needle : Bytes) → starts_with text needle ≡ true → contains text needle ≡ true
unfolding contains
contains-starts_with [] needle h = h
contains-starts_with (x ∷ text) needle h = rw h refl

contains-append : (front needle back : Bytes) → contains (front ++ (needle ++ back)) needle ≡ true
unfolding contains
contains-append [] needle back =
    contains-starts_with (needle ++ back) needle (starts_with-append needle back)
contains-append (x ∷ front) needle back = ground (arith, contains-append front needle back)

-- No end of a text, but itself and the empty one, starts another text.
borderless : Bytes → Bytes → Bool
unfolding starts_with
borderless [] whole = true
borderless (x ∷ xs) whole = not (starts_with whole (x ∷ xs)) && borderless xs whole

starts_with-shorten :
    (text back needle : Bytes)
    → length needle ≤ length text
    → starts_with (text ++ back) needle ≡ starts_with text needle
unfolding starts_with
starts_with-shorten [] back [] h = ground arith
starts_with-shorten (x ∷ xs) back [] h = refl
starts_with-shorten [] back (y ∷ ys) h = absurd (omega arith)
starts_with-shorten (x ∷ xs) back (y ∷ ys) h =
    rw (starts_with-shorten xs back ys (omega arith)) refl

module _ (y : ℕ) (ys : Bytes) (unbordered : borderless ys (y ∷ ys) ≡ true) (back : Bytes) where
  overlap :
      (text part : Bytes)
      → borderless part (y ∷ ys) ≡ true
      → length part ≤ length (y ∷ ys)
      → starts_with text part ≡ false
      → starts_with (text ++ ((y ∷ ys) ++ back)) part ≡ false
  unfolding starts_with borderless
  overlap [] [] h fits miss = absurd cc
  overlap (x ∷ text) [] h fits miss = absurd cc
  overlap [] (p ∷ part) h fits miss =
      rw (starts_with-shorten (y ∷ ys) back (p ∷ part) fits) (ground arith)
  overlap (x ∷ text) (p ∷ part) h fits miss = elim (Bool-cases (x == p)) [
    | inr differs ↦ rw differs refl
    | inl same ↦ rw same (overlap text part (ground arith) (omega arith) (rw same at miss))
  ]

  overlap_own :
      (x : ℕ) (text : Bytes)
      → starts_with (x ∷ text) (y ∷ ys) ≡ false
      → starts_with ((x ∷ text) ++ ((y ∷ ys) ++ back)) (y ∷ ys) ≡ false
  unfolding starts_with
  overlap_own x text miss = elim (Bool-cases (x == y)) [
    | inr differs ↦ rw differs refl
    | inl same ↦ rw same (overlap text ys unbordered (omega arith) (rw same at miss))
  ]

  -- A text that does not contain the needle is what stands before it.
  find_split-own :
      (front : Bytes)
      → contains front (y ∷ ys) ≡ false
      → find_split (y ∷ ys) (front ++ ((y ∷ ys) ++ back)) ≡ some (front, back)
  unfolding contains find_split
  find_split-own [] h = rw (starts_with-append (y ∷ ys) back, drop-append_self ys back) refl
  find_split-own (x ∷ front) h =
      rw (overlap_own x front (ground arith), find_split-own front (ground arith)) refl

line_unbordered : borderless (drop 1 ssh_env_line) ssh_env_line ≡ true
unfolding borderless starts_with
line_unbordered = refl

replace_loop-nil : (fuel : ℕ) → replace_loop fuel ssh_env_line [] [] ≡ []
unfolding replace_loop find_split starts_with
replace_loop-nil zero = refl
replace_loop-nil (suc fuel) = refl

replace_loop-line :
    (fuel : ℕ) (front : Bytes)
    → contains front ssh_env_line ≡ false
    → replace_loop (suc fuel) ssh_env_line [] (front ++ (ssh_env_line ++ newline))
      ≡ front ++ newline
unfolding replace_loop
replace_loop-line fuel front h =
    rw (find_split-own b'S' (drop 1 ssh_env_line) line_unbordered newline front h, replace_loop)
      (rw (replace_loop-nil fuel) refl)

replace-line :
    (front : Bytes)
    → contains front ssh_env_line ≡ false
    → replace (front ++ (ssh_env_line ++ newline)) ssh_env_line [] ≡ front ++ newline
unfolding replace
replace-line [] h = replace_loop-line 70 [] h
replace-line (x ∷ front) h =
    replace_loop-line (length (front ++ (ssh_env_line ++ newline))) (x ∷ front) h

ends_with_newline-append : (text : Bytes) → ends_with_newline (text ++ newline) ≡ true
unfolding ends_with_newline
ends_with_newline-append [] = refl
ends_with_newline-append (x ∷ []) = refl
ends_with_newline-append (x ∷ y ∷ ys) = ends_with_newline-append (y ∷ ys)

pop_back-append : (text : Bytes) → pop_back (text ++ newline) ≡ text
unfolding pop_back
pop_back-append [] = refl
pop_back-append (x ∷ []) = refl
pop_back-append (x ∷ y ∷ ys) = rw (pop_back-append (y ∷ ys)) refl

starts_with-one :
    (x y : ℕ) (a b : Bytes) → starts_with (x ∷ a) (y ∷ []) ≡ starts_with (x ∷ b) (y ∷ [])
unfolding starts_with
starts_with-one x y [] [] = refl
starts_with-one x y [] (c ∷ b) = refl
starts_with-one x y (c ∷ a) [] = refl
starts_with-one x y (c ∷ a) (d ∷ b) = refl

line_ends : ends_with_newline ssh_env_line ≡ false
unfolding ends_with_newline
line_ends = refl

-- A text that ends in another byte than a newline does not begin to occur by one at the end.
starts_with-newline :
    (text part : Bytes)
    → ends_with_newline part ≡ false
    → starts_with (text ++ newline) part ≡ starts_with text part
unfolding starts_with ends_with_newline
starts_with-newline [] [] h = refl
starts_with-newline [] (y ∷ []) h = ground arith
starts_with-newline [] (y ∷ z ∷ zs) h = ground arith
starts_with-newline (x ∷ xs) [] h = refl
starts_with-newline (x ∷ xs) (y ∷ []) h = starts_with-one x y (xs ++ newline) xs
starts_with-newline (x ∷ xs) (y ∷ z ∷ zs) h = rw (starts_with-newline xs (z ∷ zs) h) refl

contains-newline :
    (text part : Bytes)
    → is_empty part ≡ false
    → ends_with_newline part ≡ false
    → contains text part ≡ false
    → contains (text ++ newline) part ≡ false
unfolding contains
contains-newline [] part filled h miss = ground (arith, starts_with-newline [] part h)
contains-newline (x ∷ text) part filled h miss =
    rw (starts_with-newline (x ∷ text) part h)
      (ground (arith, contains-newline text part filled h (ground arith)))

contains-end_line :
    (text : Bytes)
    → contains text ssh_env_line ≡ false
    → contains (end_line text) ssh_env_line ≡ false
unfolding end_line
contains-end_line text miss =
    elim (Bool-cases (not (is_empty text) && not (ends_with_newline text))) [
      | inl open_line ↦ rw open_line (contains-newline text ssh_env_line refl line_ends miss)
      | inr ended ↦ rw ended miss
    ]

remove_line-add_line :
    (text : Bytes)
    → contains text ssh_env_line ≡ false
    → remove_line (add_line text) ≡ end_line text
unfolding remove_line add_line
remove_line-add_line text miss =
    rw
      (
        replace-line (end_line text) (contains-end_line text miss),
        ends_with_newline-append (end_line text),
        pop_back-append (end_line text),
      )
      refl

contains-add_line : (text : Bytes) → contains (add_line text) ssh_env_line ≡ true
unfolding add_line
contains-add_line text = contains-append (end_line text) ssh_env_line newline

contains_nothing : contains [] ssh_env_line ≡ false
unfolding contains starts_with
contains_nothing = refl

text_of-misses :
    (file : Option Bytes)
    → is_ssh_enabled file ≡ false
    → contains (text_of file) ssh_env_line ≡ false
unfolding is_ssh_enabled
text_of-misses none h = contains_nothing
text_of-misses (some text) h = h

-- All calls of the system work.
abbrev pub Works : Machine → Type 0
Works m =
    (m.has_user ≡ true)
    × (has_symlink_below m.links ≡ false)
    × (m.creates_dirs ≡ true)
    × (m.writes ≡ true)
    × (m.sets_owner ≡ true)
    × (m.sets_mode ≡ true)

write_text-Works :
    (m : Machine) (file : Option Bytes) (text : Bytes)
    → Works m
    → write_text m file text ≡ (some text, true)
unfolding write_text
write_text-Works m file text h = rw (h.2, h.3, h.4, h.5) refl

ends_with_newline-split :
    (text : Bytes) → ends_with_newline text ≡ true → (front : Bytes) × (text ≡ front ++ newline)
unfolding ends_with_newline
ends_with_newline-split [] h = absurd cc
ends_with_newline-split (x ∷ []) h = ([], let e : x ≡ 10 = ground arith in ap (λ y. y ∷ []) e)
ends_with_newline-split (x ∷ y ∷ ys) h =
    let (front, e) = ends_with_newline-split (y ∷ ys) h in (x ∷ front, ap (λ l. x ∷ l) e)

-- A text against an earlier one: the same if that was empty or ended in a newline, and else with one more.
abbrev pub IsRestored : Bytes → Bytes → Type 0
IsRestored before after =
    (((before ≡ []) ⊎ ((front : Bytes) × (before ≡ front ++ newline))) × (after ≡ before))
    ⊎ ((before ≢ []) × ((front : Bytes) → before ≢ front ++ newline) × (after ≡ before ++ newline))

end_line-IsRestored : (text : Bytes) → IsRestored text (end_line text)
unfolding end_line ends_with_newline
end_line-IsRestored [] = inl (inl refl, refl)
end_line-IsRestored (x ∷ xs) = elim (Bool-cases (ends_with_newline (x ∷ xs))) [
  | inl ended ↦ rw ended (inl (inr (ends_with_newline-split (x ∷ xs) ended), refl))
  | inr open_line ↦ rw open_line (
      inr (λ e. absurd cc, λ front e. let ends = ends_with_newline-append front in absurd cc, refl))
]

-- Switching SSH on for a file without the lines, and off again, works where the calls of the system do: the
-- lines are there in between and are not there at the end, and the file then has the text that it had, with
-- a newline behind it where it had a text that did not end in one; a file that was not there is then empty.
pub set_ssh_enabled-toggle :
    (m : Machine) (file : Option Bytes)
    → Works m
    → is_ssh_enabled file ≡ false
    → let on = set_ssh_enabled m file true in
      let off = set_ssh_enabled m on.0 false in
      (on.1 ≡ true)
      × (is_ssh_enabled on.0 ≡ true)
      × ((after : Bytes) × (off ≡ (some after, true)) × IsRestored (text_of file) after)
      × (is_ssh_enabled off.0 ≡ false)
unfolding set_ssh_enabled is_ssh_enabled
set_ssh_enabled-toggle m file h misses =
    let text = text_of file in
    let miss : contains text ssh_env_line ≡ false = text_of-misses file misses in
    let on : set_ssh_enabled m file true ≡ (some (add_line text), true) =
      rw (h.0, h.1, miss) (write_text-Works m file (add_line text) h) in
    let off : set_ssh_enabled m (some (add_line text)) false ≡ (some (end_line text), true) =
      rw (h.0, h.1, contains-add_line text, remove_line-add_line text miss)
        (write_text-Works m (some (add_line text)) (end_line text) h) in
    rw (on, off)
      (
        refl,
        contains-add_line text,
        (end_line text, refl, end_line-IsRestored text),
        contains-end_line text miss,
      )
