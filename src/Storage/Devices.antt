-- ===== src/Storage/Devices.antt =====
-- The operations on the paired devices, with a disk that works.
use pcbu_desktop.Base.{
  ◌≡◌, ◌≢◌, refl, sym, inl, inr, true, false, not, ◌&&◌, List, [], ◌∷◌, ◌++◌, some, Bytes, keep,
  str_eq, str_eq_iff, str_eq_refl, is_empty, All, Bool-cases,
}
use pcbu_desktop.Device.{PairingMethod, PairedDevice}
use pcbu_desktop.Storage.{
  JsonLib, Storage, Disk, load, has_method, remove_devices_with_method, devices_json, save_devices,
  get_devices, find_device, get_device_by_id, add_device, remove_device, without_id,
  invalidate_cache,
}
use pcbu_desktop.Storage.RoundTrip.{IsJson, IsStorable, load-devices_json}

abbrev pub Works : Disk → Type 0
Works disk = ((not disk.has_file && not disk.creates) ≡ false) × (disk.writes ≡ true)

module _ {J : Type 0} (lib : JsonLib J) where
  -- The library writes and reads back the value of these devices.
  pub record IsWritten (ds : List PairedDevice) : Type 0 where
    pub bytes : Bytes
    pub dumps : lib.dump (devices_json lib ds) ≡ some bytes
    pub parses : lib.parse bytes ≡ some (devices_json lib ds)
    pub filled : is_empty bytes ≡ false

  module _ (laws : IsJson lib) (disk : Disk) (works : Works disk) where
    save_devices-works :
        (s : Storage) (ds : List PairedDevice) (w : IsWritten ds)
        → save_devices lib s disk ds ≡ record { cache = ds; file = w.bytes }
    unfolding save_devices
    save_devices-works s ds w = rw (works.0, w.dumps) (rw (works.1) refl)

    get_devices-saved :
        (ds : List PairedDevice) (w : IsWritten ds)
        → All IsStorable ds
        → ((get_devices lib (record { cache = ds; file = w.bytes })).1 ≡ ds)
          × ((get_devices lib (record { cache = []; file = w.bytes })).1 ≡ ds)
    unfolding get_devices
    get_devices-saved [] w h =
        let loaded = load-devices_json lib laws [] w.bytes h w.dumps w.parses w.filled in
        (loaded, loaded)
    get_devices-saved (d ∷ ds) w h =
        (refl, load-devices_json lib laws (d ∷ ds) w.bytes h w.dumps w.parses w.filled)

    -- After a device is added, the devices are those before without the ones of its id, and then itself, both
    -- for this process and for one that reads the file anew. The disk and the JSON library work for the
    -- devices that are written, and these fit the file.
    pub add_device-get_devices :
        (s : Storage) (device : PairedDevice)
        → let ds = without_id device.id (get_devices lib s).1 ++ (device ∷ []) in
          IsWritten ds
          → All IsStorable ds
          → let t = add_device lib s disk device in
            ((get_devices lib t).1 ≡ ds) × ((get_devices lib (invalidate_cache t)).1 ≡ ds)
    unfolding add_device invalidate_cache
    add_device-get_devices s device w h =
        rw
          (save_devices-works (get_devices lib s).0
            (without_id device.id (get_devices lib s).1 ++ (device ∷ [])) w)
          (get_devices-saved (without_id device.id (get_devices lib s).1 ++ (device ∷ [])) w h)

    -- After a removal the devices are those before without the ones of the id, both for this process and for
    -- one that reads the file anew. The disk and the JSON library work for the devices that are written, and
    -- these fit the file.
    pub remove_device-get_devices :
        (s : Storage) (id : Bytes)
        → let ds = without_id id (get_devices lib s).1 in
          IsWritten ds
          → All IsStorable ds
          → let t = remove_device lib s disk id in
            ((get_devices lib t).1 ≡ ds) × ((get_devices lib (invalidate_cache t)).1 ≡ ds)
    unfolding remove_device invalidate_cache
    remove_device-get_devices s id w h =
        rw (save_devices-works (get_devices lib s).0 (without_id id (get_devices lib s).1) w)
          (get_devices-saved (without_id id (get_devices lib s).1) w h)

module _ {J : Type 0} (lib : JsonLib J) where
  -- The devices are still there when they are looked at again.
  pub get_devices-get_devices :
      (s : Storage) → (get_devices lib (get_devices lib s).0).1 ≡ (get_devices lib s).1
  unfolding get_devices
  get_devices-get_devices s = elim (Bool-cases (is_empty s.cache)) [
    | inr filled ↦ rw (filled, get_devices) (rw filled refl)
    | inl nothing ↦
        rw (nothing, get_devices)
          (elim (Bool-cases (is_empty (load lib s.file))) [
            | inl none_there ↦ rw none_there refl
            | inr some_there ↦ rw some_there refl
          ])
  ]

  -- After a removal of the devices of a method the devices are those before without them, both for this
  -- process and for one that reads the file anew. The disk and the JSON library work for the devices that are
  -- written, and these fit the file.
  pub remove_devices_with_method-get_devices :
      IsJson lib
      → (disk : Disk) → Works disk
      → (s : Storage) (method : PairingMethod)
      → let ds = keep (λ d. not (has_method method d)) (get_devices lib s).1 in
        IsWritten lib ds
        → All IsStorable ds
        → let t = remove_devices_with_method lib s disk method in
          ((get_devices lib t).1 ≡ ds) × ((get_devices lib (invalidate_cache t)).1 ≡ ds)
  unfolding remove_devices_with_method invalidate_cache
  remove_devices_with_method-get_devices laws disk works s method w h =
      let ds = keep (λ d. not (has_method method d)) (get_devices lib s).1 in
      rw (save_devices-works lib laws disk works (get_devices lib s).0 ds w)
        (get_devices-saved lib laws disk works ds w h)

differs_not : {a b : Bytes} → str_eq a b ≡ false → a ≢ b
differs_not {a} {b} h e = let same = (str_eq_iff a b).1 e in absurd cc

abbrev pub HasFresh : Bytes → List PairedDevice → Type 0
HasFresh id ds = All (λ d. d.id ≢ id) ds

-- No two devices have one id.
abbrev pub IsUnique : List PairedDevice → Type 0
IsUnique [] = Unit {0}
IsUnique (d ∷ ds) = HasFresh d.id ds × IsUnique ds

HasFresh-without_id :
    (id other : Bytes) (ds : List PairedDevice) → HasFresh id ds → HasFresh id (without_id other ds)
HasFresh-without_id id other [] h = tt
HasFresh-without_id id other (d ∷ ds) h = elim (Bool-cases (str_eq d.id other)) [
  | inl same ↦ rw same (HasFresh-without_id id other ds h.1)
  | inr differs ↦ rw differs (h.0, HasFresh-without_id id other ds h.1)
]

HasFresh-append :
    (id : Bytes) (ds : List PairedDevice) (d : PairedDevice)
    → HasFresh id ds
    → d.id ≢ id
    → HasFresh id (ds ++ (d ∷ []))
HasFresh-append id [] d h ne = (ne, tt)
HasFresh-append id (x ∷ ds) d h ne = (h.0, HasFresh-append id ds d h.1 ne)

-- A list of unique devices stays one when a device takes the place of the ones of its id, and the device is
-- then the one that is found under its id.
pub IsUnique-added :
    (device : PairedDevice) (ds : List PairedDevice)
    → IsUnique ds
    → let added = without_id device.id ds ++ (device ∷ []) in
      IsUnique added × (find_device added device.id ≡ some device)
unfolding find_device
IsUnique-added device [] h = ((tt, tt), rw (str_eq_refl device.id))
IsUnique-added device (d ∷ ds) h = elim (Bool-cases (str_eq d.id device.id)) [
  | inl same ↦ rw same (IsUnique-added device ds h.1)
  | inr differs ↦
      let rest = IsUnique-added device ds h.1 in
      let ne : device.id ≢ d.id = λ e. absurd (differs_not differs (sym e)) in
      rw differs (
        (
          HasFresh-append d.id (without_id device.id ds) device
              (HasFresh-without_id d.id device.id ds h.0) ne,
          rest.0,
        ),
        rw (differs, find_device) rest.1,
      )
]

module _ {J : Type 0} (lib : JsonLib J) (laws : IsJson lib) (disk : Disk) (works : Works disk) where
  -- Adding a device to devices with different ids leaves the ids different, and the device is then found
  -- under its id. The disk and the JSON library work for the devices that are written, and these fit the
  -- file.
  pub add_device-get_device_by_id :
      (s : Storage) (device : PairedDevice)
      → let ds = without_id device.id (get_devices lib s).1 ++ (device ∷ []) in
        IsWritten lib ds
        → All IsStorable ds
        → IsUnique (get_devices lib s).1
        → let t = add_device lib s disk device in
          IsUnique (get_devices lib t).1 × ((get_device_by_id lib t device.id).1 ≡ some device)
  unfolding get_device_by_id
  add_device-get_device_by_id s device w h unique =
      rw ((add_device-get_devices lib laws disk works s device w h).0)
        (IsUnique-added device (get_devices lib s).1 unique)
