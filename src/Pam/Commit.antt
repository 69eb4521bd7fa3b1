-- ===== src/Pam/Commit.antt =====
-- The pending changes of PAMHelper and their commit.
use pcbu_desktop.Base.{
  ◌≡◌, ◌≢◌, refl, sym, ap, ◌∙◌, inl, inr, Bool, true, false, List, [], ◌∷◌, Option, none, some,
  if◌then◌else◌, Bytes, str_eq, str_eq_iff, Bool-cases, Option-cases, arith,
}
use pcbu_desktop.Pam.{
  Pam, find_change, set_change, seen_file, write_file, is_done, changes_of, apply_changes, commit,
}

-- Each path has one change.
abbrev pub IsKeyed : List (Bytes × Option Bytes) → Type 0
IsKeyed [] = Unit {0}
IsKeyed ((key, change) ∷ rest) = (find_change rest key ≡ none) × IsKeyed rest

abbrev pub over : (Bytes → Option Bytes) → List (Bytes × Option Bytes) → Bytes → Option Bytes
over files changes path = elim (find_change changes path) [
  | none ↦ files path
  | some change ↦ change
]

find_change-set_change :
    (changes : List (Bytes × Option Bytes)) (path : Bytes) (change : Option Bytes) (other : Bytes)
    → find_change (set_change changes path change) other
      ≡ (if str_eq path other then some change else find_change changes other)
unfolding find_change set_change
find_change-set_change [] path change other = refl
find_change-set_change ((key, old) ∷ rest) path change other = elim (Bool-cases (str_eq key path)) [
  | inl same ↦ rw (same) (rw ((str_eq_iff key path).0 same) (ground arith))
  | inr differs ↦ elim (Bool-cases (str_eq path other)) [
    | inl here ↦
        let apart : str_eq key other ≡ false = rw ((str_eq_iff path other).0 here) at differs in
        rw (differs, find_change)
          (rw (find_change-set_change rest path change other) (rw (here, apart) refl))
    | inr elsewhere ↦
        rw (differs, find_change)
          (rw (find_change-set_change rest path change other) (rw (elsewhere) refl))
  ]
]

true≢false : true ≢ false
true≢false e = cc

str_eq-apart : (a b : Bytes) → str_eq a b ≡ false → str_eq b a ≡ false
str_eq-apart a b h = elim (Bool-cases (str_eq b a)) [
  | inl same ↦ let e = (str_eq_iff a b).1 (sym ((str_eq_iff b a).0 same)) in absurd cc
  | inr differs ↦ differs
]

changes_of-none :
    (files : Bytes → Option Bytes) (changes : List (Bytes × Option Bytes)) (path : Bytes)
    → find_change changes path ≡ none
    → find_change (changes_of files changes) path ≡ none
unfolding find_change changes_of
changes_of-none files [] path h = refl
changes_of-none files ((key, change) ∷ rest) path h = elim (Bool-cases (str_eq key path)) [
  | inl same ↦ absurd (ground (arith, rw same at h))
  | inr differs ↦ elim (Bool-cases (is_done files key change)) [
    | inl done ↦ rw done (changes_of-none files rest path (rw differs at h))
    | inr kept ↦ rw (kept, differs) (changes_of-none files rest path (rw differs at h))
  ]
]

changes_of-IsKeyed :
    (files : Bytes → Option Bytes) (changes : List (Bytes × Option Bytes))
    → IsKeyed changes
    → IsKeyed (changes_of files changes)
unfolding changes_of
changes_of-IsKeyed files [] h = tt
changes_of-IsKeyed files ((key, change) ∷ rest) h = elim (Bool-cases (is_done files key change)) [
  | inl done ↦ rw done (changes_of-IsKeyed files rest h.1)
  | inr kept ↦ rw kept (changes_of-none files rest key h.0, changes_of-IsKeyed files rest h.1)
]

is_done-same :
    (files : Bytes → Option Bytes) (path : Bytes) (change : Option Bytes)
    → is_done files path change ≡ true
    → files path ≡ change
unfolding is_done
is_done-same files path none h = elim (Option-cases (files path)) [
  | inl e ↦ e
  | inr (contents, e) ↦ absurd (true≢false (sym h ∙ rw (e, is_done) refl))
]
is_done-same files path (some new) h = elim (Option-cases (files path)) [
  | inl e ↦ absurd (true≢false (sym h ∙ rw (e, is_done) refl))
  | inr (contents, e) ↦ e ∙ ap some ((str_eq_iff contents new).0 (sym (rw (e, is_done) refl) ∙ h))
]

module _ (files : Bytes → Option Bytes) (key : Bytes) (change : Option Bytes)
    (rest : List (Bytes × Option Bytes)) (path : Bytes) where
  over-here : str_eq key path ≡ true → over files ((key, change) ∷ rest) path ≡ change
  unfolding find_change
  over-here same = rw (same, over) refl

  over-elsewhere :
      str_eq key path ≡ false → over files ((key, change) ∷ rest) path ≡ over files rest path
  unfolding find_change
  over-elsewhere differs = rw (differs, over) refl

over-none :
    (files : Bytes → Option Bytes) (changes : List (Bytes × Option Bytes)) (path : Bytes)
    → find_change changes path ≡ none
    → over files changes path ≡ files path
over-none files changes path e = rw (e, over) refl

over-changes_of :
    (files : Bytes → Option Bytes) (changes : List (Bytes × Option Bytes)) (path : Bytes)
    → IsKeyed changes
    → over files (changes_of files changes) path ≡ over files changes path
unfolding changes_of
over-changes_of files [] path h = refl
over-changes_of files ((key, change) ∷ rest) path h = elim (Bool-cases (str_eq key path)) [
  | inl same ↦
      let e = (str_eq_iff key path).0 same in
      elim (Bool-cases (is_done files key change)) [
        | inl done ↦
            rw (done, over-here files key change rest path same)
              (over-none files (changes_of files rest) path
                  (changes_of-none files rest path (rw e at h.0))
                ∙ (rw e at (is_done-same files key change done)))
        | inr kept ↦
            rw (kept, over-here files key change rest path same)
              (over-here files key change (changes_of files rest) path same)
      ]
  | inr differs ↦ elim (Bool-cases (is_done files key change)) [
    | inl done ↦
        rw (done, over-elsewhere files key change rest path differs)
          (over-changes_of files rest path h.1)
    | inr kept ↦
        rw
          (
            kept,
            over-elsewhere files key change rest path differs,
            over-elsewhere files key change (changes_of files rest) path differs,
          )
          (over-changes_of files rest path h.1)
  ]
]

over-write_file :
    (files : Bytes → Option Bytes) (key : Bytes) (change : Option Bytes)
    (rest : List (Bytes × Option Bytes)) (path : Bytes)
    → find_change rest key ≡ none
    → over (write_file files key change) rest path ≡ over files ((key, change) ∷ rest) path
over-write_file files key change rest path fresh = elim (Bool-cases (str_eq key path)) [
  | inl same ↦ rw (over-here files key change rest path same) (
      over-none (write_file files key change) rest path (rw ((str_eq_iff key path).0 same) at fresh)
      ∙ rw same refl)
  | inr differs ↦
      rw (over-elsewhere files key change rest path differs)
        (elim (Option-cases (find_change rest path)) [
          | inl e ↦ rw (e, over) (rw differs refl)
          | inr (c, e) ↦ rw (e, over) refl
        ])
]

over-apply_changes :
    (files : Bytes → Option Bytes) (writes : Bytes → Bool) (changes : List (Bytes × Option Bytes))
    (path : Bytes)
    → ((p : Bytes) → writes p ≡ true)
    → IsKeyed changes
    → ((apply_changes files writes changes).0 path ≡ over files changes path)
      × ((apply_changes files writes changes).1 ≡ none)
unfolding find_change apply_changes
over-apply_changes files writes [] path works h = (refl, refl)
over-apply_changes files writes ((key, change) ∷ rest) path works h =
    let later = over-apply_changes (write_file files key change) writes rest path works h.1 in
    rw (works key) (later.0 ∙ over-write_file files key change rest path h.0, later.1)

-- Where the shell can write and remove every file, a commit of changes to different paths does not throw,
-- leaves each file as the helper saw it behind its changes, and leaves no change pending.
pub commit-seen_file :
    (p : Pam) (writes : Bytes → Bool) (path : Bytes)
    → ((p : Bytes) → writes p ≡ true)
    → IsKeyed p.pending
    → ((commit p writes).0.files path ≡ seen_file p path)
      × ((commit p writes).0.pending ≡ [])
      × ((commit p writes).1 ≡ none)
unfolding commit
commit-seen_file p writes path works h =
    let applied =
      over-apply_changes p.files writes (changes_of p.files p.pending) path works
        (changes_of-IsKeyed p.files p.pending h) in
    (applied.0 ∙ over-changes_of p.files p.pending path h, refl, applied.1)

set_change-IsKeyed :
    (changes : List (Bytes × Option Bytes)) (path : Bytes) (change : Option Bytes)
    → IsKeyed changes
    → IsKeyed (set_change changes path change)
unfolding find_change set_change
set_change-IsKeyed [] path change h = (refl, tt)
set_change-IsKeyed ((key, old) ∷ rest) path change h = elim (Bool-cases (str_eq key path)) [
  | inl same ↦ rw same (h.0, h.1)
  | inr differs ↦
      let apart : str_eq path key ≡ false = str_eq-apart key path differs in
      rw differs (
        find_change-set_change rest path change key ∙ rw apart h.0,
        set_change-IsKeyed rest path change h.1,
      )
]
