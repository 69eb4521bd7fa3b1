-- ===== src/Settings/Config/Udp.antt =====
-- The devices over UDP: whether there are some, and their removal.
use pcbu_desktop.Base.{
  ◌≡◌, refl, sym, ap, ◌∙◌, inl, inr, Bool, true, false, not, ◌||◌, List, [], ◌∷◌, is_empty, arith,
  All, keep, Bool-cases,
}
use mathlib.Core.Path.{subst}
use pcbu_desktop.Device.{PairingMethod, tcp, bluetooth, cloud, udp, manual_udp, PairedDevice}
use pcbu_desktop.Storage.{
  JsonLib, Storage, Disk, same_method, has_method, get_devices, has_devices_with_method,
  remove_devices_with_method, invalidate_cache,
}
use pcbu_desktop.Storage.RoundTrip.{IsJson, IsStorable}
use pcbu_desktop.Storage.Devices.{
  IsWritten, Works, get_devices-get_devices, remove_devices_with_method-get_devices,
}
use pcbu_desktop.Settings.Config.{has_udp_devices, without_udp_devices}

-- A method over UDP.
abbrev pub is_over_udp : PairingMethod → Bool
is_over_udp udp = true
is_over_udp manual_udp = true
is_over_udp _ = false

abbrev pub without_udp : List PairedDevice → List PairedDevice
without_udp = keep (λ d. not (is_over_udp d.pairing_method))

abbrev pub has_udp : List PairedDevice → Bool
has_udp [] = false
has_udp (d ∷ ds) = is_over_udp d.pairing_method || has_udp ds

abbrev pub without_method : PairingMethod → List PairedDevice → List PairedDevice
without_method method = keep (λ d. not (has_method method d))

abbrev has_one : PairingMethod → List PairedDevice → Bool
has_one method ds = not (is_empty (keep (has_method method) ds))

over_udp_only :
    (method : PairingMethod)
    → is_over_udp method ≡ (same_method method udp || same_method method manual_udp)
over_udp_only tcp = refl
over_udp_only bluetooth = refl
over_udp_only cloud = refl
over_udp_only udp = refl
over_udp_only manual_udp = refl

or_swap : (a b c d : Bool) → ((a || b) || (c || d)) ≡ ((a || c) || (b || d))
or_swap a b c d = ground arith

is_over_udp-has_method :
    (d : PairedDevice)
    → is_over_udp d.pairing_method ≡ (has_method udp d || has_method manual_udp d)
is_over_udp-has_method d = over_udp_only d.pairing_method

has_one-cons :
    (method : PairingMethod) (d : PairedDevice) (ds : List PairedDevice)
    → has_one method (d ∷ ds) ≡ (has_method method d || has_one method ds)
has_one-cons method d ds = elim (Bool-cases (has_method method d)) [
  | inl e ↦ rw e refl
  | inr e ↦ rw e refl
]

has_one-has_udp : (ds : List PairedDevice) → (has_one udp ds || has_one manual_udp ds) ≡ has_udp ds
has_one-has_udp [] = refl
has_one-has_udp (d ∷ ds) =
    rw
      (
        has_one-cons udp d ds,
        has_one-cons manual_udp d ds,
        is_over_udp-has_method d,
        ← has_one-has_udp ds,
      )
      (or_swap (has_method udp d) (has_one udp ds) (has_method manual_udp d)
        (has_one manual_udp ds))

without_method-without_udp :
    (ds : List PairedDevice) → without_method manual_udp (without_method udp ds) ≡ without_udp ds
without_method-without_udp [] = refl
without_method-without_udp (d ∷ ds) =
    rw (is_over_udp-has_method d) (elim (Bool-cases (has_method udp d)) [
      | inl e ↦ rw e (without_method-without_udp ds)
      | inr e ↦ rw e (elim (Bool-cases (has_method manual_udp d)) [
        | inl f ↦ rw f (without_method-without_udp ds)
        | inr f ↦ rw f (ap (λ l. d ∷ l) (without_method-without_udp ds))
      ])
    ])

All-keep :
    (P : PairedDevice → Type 0) (p : PairedDevice → Bool) (ds : List PairedDevice)
    → All P ds
    → All P (keep p ds)
All-keep P p [] h = tt
All-keep P p (d ∷ ds) h = elim (Bool-cases (p d)) [
  | inl stays ↦ rw stays (h.0, All-keep P p ds h.1)
  | inr goes ↦ rw goes (All-keep P p ds h.1)
]

-- The devices for this process and for one that reads the file anew.
abbrev pub IsLeft : {J : Type 0} → JsonLib J → Storage → List PairedDevice → Type 0
IsLeft lib t ds = ((get_devices lib t).1 ≡ ds) × ((get_devices lib (invalidate_cache t)).1 ≡ ds)

IsLeft-removal :
    {J : Type 0} (lib : JsonLib J)
    → IsJson lib
    → (disk : Disk) → Works disk
    → (st : Storage) (method : PairingMethod) (ds : List PairedDevice) → (get_devices lib st).1 ≡ ds
    → IsWritten lib (without_method method ds)
    → All IsStorable (without_method method ds)
    → IsLeft lib (remove_devices_with_method lib st disk method) (without_method method ds)
IsLeft-removal lib laws disk works st method ds e w h =
    let t = remove_devices_with_method lib st disk method in
    subst (λ l. IsLeft lib t (without_method method l)) e
      (remove_devices_with_method-get_devices lib laws disk works st method
        (subst (λ l. IsWritten lib (without_method method l)) (sym e) w)
        (subst (λ l. All IsStorable (without_method method l)) (sym e) h))

module _ {J : Type 0} (lib : JsonLib J) (disk : Disk) (st : Storage) where
  pub has_udp_devices-has_udp :
      ((has_udp_devices lib disk st).1 ≡ has_udp (get_devices lib st).1)
      × ((get_devices lib (has_udp_devices lib disk st).0).1 ≡ (get_devices lib st).1)
  unfolding has_udp_devices has_devices_with_method
  has_udp_devices-has_udp =
      let ds = (get_devices lib st).1 in
      let again = get_devices-get_devices lib st in
      let seen = (get_devices lib st).0 in
      let twice = get_devices-get_devices lib seen ∙ again in
      elim (Bool-cases (has_one udp ds)) [
        | inl e ↦ rw e ((rw (← has_one-has_udp ds, e) refl), again)
        | inr e ↦ rw (e, again) ((rw (← has_one-has_udp ds, e) refl), twice)
      ]

  module _ (laws : IsJson lib) (works : Works disk)
      (half : IsWritten lib (without_method udp (get_devices lib st).1))
      (rest : IsWritten lib (without_udp (get_devices lib st).1))
      (storable : All IsStorable (get_devices lib st).1) where
    -- What is left behind the look for devices over UDP and their removal.
    pub without_udp_devices-without_udp :
        let t = without_udp_devices lib disk (has_udp_devices lib disk st).0 in
        IsLeft lib t (without_udp (get_devices lib st).1)
    unfolding without_udp_devices
    without_udp_devices-without_udp =
        let ds = (get_devices lib st).1 in
        let one = without_method udp ds in
        let st1 = (has_udp_devices lib disk st).0 in
        let st2 = remove_devices_with_method lib st1 disk udp in
        let first =
          IsLeft-removal lib laws disk works st1 udp ds has_udp_devices-has_udp.1 half
            (All-keep IsStorable (λ d. not (has_method udp d)) ds storable) in
        let same : without_method manual_udp one ≡ without_udp ds = without_method-without_udp ds in
        let last =
          IsLeft-removal lib laws disk works st2 manual_udp one first.0
            (subst (IsWritten lib) (sym same) rest)
            (subst (All IsStorable) (sym same)
              (All-keep IsStorable (λ d. not (is_over_udp d.pairing_method)) ds storable)) in
        subst (IsLeft lib (remove_devices_with_method lib st2 disk manual_udp)) same last
