-- ===== src/DeviceCommands/Find.antt =====
-- The device that an ID or its beginning names.
use mathlib.Core.List.{append_assoc, append-nil}
use pcbu_desktop.Base.{
  ◌≡◌, refl, inl, inr, true, false, List, [], ◌∷◌, ◌++◌, none, some, Bytes, str_eq, starts_with,
  keep, if◌then◌else◌, ◌≤◌, ◌⊎◌, All, str_eq_iff, length, arith, Bool-cases, Bool, Option, ap, ◌∙◌,
  sym,
}
use pcbu_desktop.Device.{PairedDevice}
use pcbu_desktop.Storage.{JsonLib, Storage, find_device, get_devices}
use pcbu_desktop.DeviceCommands.{
  FoundDevice, found, missing_id, no_device, ambiguous, only_match, find_loop, find,
}

-- The device with exactly the id, or else the only one of the others.
unfoldable exact_or_only : Option PairedDevice → List PairedDevice → FoundDevice
exact_or_only (some d) others = found d
exact_or_only none others = only_match others

abbrev pub beginning_with : Bytes → List PairedDevice → List PairedDevice
beginning_with id = keep (λ d. starts_with d.id id)

if-append :
    (b : Bool) (matches ds : List PairedDevice) (d : PairedDevice)
    → (if b then matches ++ (d ∷ []) else matches) ++ ds ≡ matches ++ (if b then d ∷ ds else ds)
if-append true matches ds d = append_assoc matches (d ∷ []) ds
if-append false matches ds d = refl

find_loop-exact_or_only :
    (ds : List PairedDevice) (id : Bytes) (matches : List PairedDevice)
    → find_loop ds id matches ≡ exact_or_only (find_device ds id) (matches ++ beginning_with id ds)
unfolding find_loop find_device exact_or_only
find_loop-exact_or_only [] id matches = ap only_match (sym (append-nil matches))
find_loop-exact_or_only (d ∷ ds) id matches = elim (Bool-cases (str_eq d.id id)) [
  | inl same ↦ rw (same, exact_or_only) refl
  | inr differs ↦
      let next = if starts_with d.id id then matches ++ (d ∷ []) else matches in
      rw differs (
        find_loop-exact_or_only ds id next
        ∙ ap (exact_or_only (find_device ds id))
            (if-append (starts_with d.id id) matches (beginning_with id ds) d))
]

-- The devices, and none of them has exactly the id.
abbrev pub HasNone : Bytes → List PairedDevice → Type 0
HasNone id ds = All (λ d. str_eq d.id id ≡ false) ds

-- What a text names among some devices.
abbrev pub Names : Bytes → List PairedDevice → FoundDevice → Type 0
Names id ds (found d) =
    ((before after : List PairedDevice) × (ds ≡ before ++ (d ∷ after))
      × (d.id ≡ id)
      × HasNone id before)
    ⊎ (HasNone id ds × (beginning_with id ds ≡ d ∷ []))
Names id ds missing_id = ⊥
Names id ds no_device = HasNone id ds × (beginning_with id ds ≡ [])
Names id ds ambiguous = HasNone id ds × (2 ≤ length (beginning_with id ds))

abbrev IsFirstWith : Bytes → List PairedDevice → Option PairedDevice → Type 0
IsFirstWith id ds none = HasNone id ds
IsFirstWith id ds (some d) =
    (before after : List PairedDevice) × (ds ≡ before ++ (d ∷ after))
    × (d.id ≡ id)
    × HasNone id before

IsFirstWith-cons :
    (id : Bytes) (x : PairedDevice) (ds : List PairedDevice) (o : Option PairedDevice)
    → str_eq x.id id ≡ false
    → IsFirstWith id ds o
    → IsFirstWith id (x ∷ ds) o
IsFirstWith-cons id x ds none differs h = (differs, h)
IsFirstWith-cons id x ds (some d) differs (before, after, e, same, others) =
    (x ∷ before, after, ap (λ l. x ∷ l) e, same, (differs, others))

find_device-IsFirstWith :
    (ds : List PairedDevice) (id : Bytes) → IsFirstWith id ds (find_device ds id)
unfolding find_device
find_device-IsFirstWith [] id = tt
find_device-IsFirstWith (d ∷ ds) id = elim (Bool-cases (str_eq d.id id)) [
  | inl same ↦ rw (same, IsFirstWith) ([], ds, refl, (str_eq_iff d.id id).0 same, tt)
  | inr differs ↦
      rw (differs, IsFirstWith)
        (IsFirstWith-cons id d ds (find_device ds id) differs (find_device-IsFirstWith ds id))
]

only_match-Names :
    (id : Bytes) (ds matches : List PairedDevice)
    → HasNone id ds
    → beginning_with id ds ≡ matches
    → Names id ds (only_match matches)
unfolding only_match
only_match-Names id ds [] h e = (h, e)
only_match-Names id ds (d ∷ []) h e = inr (h, e)
only_match-Names id ds (d ∷ x ∷ rest) h e = (h, rw e (omega arith))

exact_or_only-Names :
    (id : Bytes) (ds : List PairedDevice) (o : Option PairedDevice)
    → IsFirstWith id ds o
    → Names id ds (exact_or_only o (beginning_with id ds))
unfolding exact_or_only
exact_or_only-Names id ds none h = only_match-Names id ds (beginning_with id ds) h refl
exact_or_only-Names id ds (some d) h = inl h

-- An empty text is refused, and another one is looked up.
abbrev pub IsAnswer : Bytes → List PairedDevice → FoundDevice → Type 0
IsAnswer [] ds answer = answer ≡ missing_id
IsAnswer (x ∷ xs) ds answer = Names (x ∷ xs) ds answer

module _ {J : Type 0} (lib : JsonLib J) (st : Storage) where
  -- FindDevice gives the first device that has exactly the id, wherever it stands; where there is none, it
  -- gives the device whose id begins with the text if there is exactly one, and else tells that there is none
  -- or that there are at least two. An empty text names no device.
  pub find-IsAnswer : (id : Bytes) → IsAnswer id (get_devices lib st).1 (find lib st id).1
  unfolding find
  find-IsAnswer [] = refl
  find-IsAnswer (x ∷ xs) =
      let ds = (get_devices lib st).1 in
      rw (find_loop-exact_or_only ds (x ∷ xs) []) (
        exact_or_only-Names (x ∷ xs) ds (find_device ds (x ∷ xs))
          (find_device-IsFirstWith ds (x ∷ xs)))
