-- ===== src/Pairing/Prepared.antt =====
-- A request that HandleClient accepts, and the response that it makes.
use pcbu_desktop.Base.{
  ℕ, List, starts_with, str_eq, get_or, ◌≡◌, refl, ◌⊎◌, inl, inr, true, [], ◌∷◌, none, some, Bytes,
  codes, Bool-cases, Option-cases,
}
use pcbu_desktop.Device.{PairedDevice}
use pcbu_desktop.Crypt.{OpenSsl, HexCoder, encrypt_aes_text}
use pcbu_desktop.Storage.{JsonLib, Disk}
use pcbu_desktop.Storage.RoundTrip.{find_field}
use pcbu_desktop.Version.{
  Comparison, same, other_newer, this_newer, parse_parts, stoi, read_number, read_digits,
  version_numbers, compare_version, pairing_protocol_version,
}
use pcbu_desktop.Version.Order.{Says, compare_version-Says}
use pcbu_desktop.Text.{split, split_loop, find_split}
use pcbu_desktop.Pairing.{
  PacketPairInit, PairingUiData, Machine, is_same, init_from_json, response_json,
  response_data_json,
}
use pcbu_desktop.Pairing.Handling.{refused, ready, new_device, response_data, prepare}

own_numbers : version_numbers pairing_protocol_version ≡ some (4 ∷ 0 ∷ 0 ∷ [])
unfolding version_numbers pairing_protocol_version split split_loop find_split starts_with
    parse_parts stoi read_number read_digits
own_numbers = refl

is_same-numbers :
    (c : Comparison) (a b : List ℕ)
    → is_same c ≡ true
    → Says c a b
    → (i : ℕ) → get_or a i 0 ≡ get_or b i 0
is_same-numbers same a b h says = says
is_same-numbers other_newer a b h says = absurd cc
is_same-numbers this_newer a b h says = absurd cc

module _ {J : Type 0} (lib : JsonLib J) (ssl : OpenSsl) (coder : HexCoder) (m : Machine)
    (disk : Disk) where
  pub record IsPrepared (ui : PairingUiData) (plain : Bytes) (device : PairedDevice) (text : Bytes)
      : Type 0 where
    pub init : PacketPairInit
    pub password_enc : Bytes
    pub parses : init_from_json lib plain ≡ some init
    pub same_version : is_same (compare_version pairing_protocol_version init.proto_version) ≡ true
    pub encrypts : encrypt_aes_text ssl coder m.seal ui.password m.password_key ≡ some password_enc
    pub is_new : device ≡ new_device m ui init password_enc
    pub dumps : lib.dump (response_json lib [] (response_data m ui device)) ≡ some text

  abbrev pub PreparedCases : PairingUiData → Bytes → Type 0
  PreparedCases ui plain =
      ((message : Bytes) × (prepare lib ssl coder m disk ui plain ≡ refused message))
      ⊎ ((device : PairedDevice) × (text : Bytes) × (prepare lib ssl coder m disk ui plain
            ≡ ready device text)
          × IsPrepared ui plain device text)

  pub prepare-cases : (ui : PairingUiData) (plain : Bytes) → PreparedCases ui plain
  unfolding prepare
  prepare-cases ui plain = elim (Option-cases (init_from_json lib plain)) [
    | inl e ↦ inl (codes "error_pairing_packet_parse", rw (e, prepare) refl)
    | inr (init, e) ↦
        elim (Bool-cases (is_same (compare_version pairing_protocol_version init.proto_version))) [
          | inr other ↦ inl (codes "error_protocol_mismatch", rw (e, prepare) (rw other refl))
          | inl is_it ↦
              elim (Option-cases (encrypt_aes_text ssl coder m.seal ui.password m.password_key)) [
                | inl f ↦ inl (
                  codes "error_password_encrypt",
                  rw (e, prepare) (rw is_it (rw (f, prepare) refl)),
                )
                | inr (enc, f) ↦
                    let device = new_device m ui init enc in
                    elim (Option-cases
                      (lib.dump (response_json lib [] (response_data m ui device)))) [
                        | inl g ↦ inl (
                          m.thrown,
                          rw (e, prepare) (rw is_it (rw (f, prepare) (rw (g, prepare) refl))),
                        )
                        | inr (text, g) ↦ inr (
                          device,
                          text,
                          rw (e, prepare) (rw is_it (rw (f, prepare) (rw (g, prepare) refl))),
                          record {
                            init = init;
                            password_enc = enc;
                            parses = e;
                            same_version = is_it;
                            encrypts = f;
                            is_new = refl;
                            dumps = g;
                          },
                        )
                      ]
              ]
        ]
  ]

  -- A text of JSON whose data names a password key.
  pub record TellsKey (key text : Bytes) : Type 0 where
    pub fields : List (Bytes × J)
    pub data_fields : List (Bytes × J)
    pub is_text : lib.dump (lib.object fields) ≡ some text
    pub has_data : find_field fields (codes "data") ≡ some (lib.object data_fields)
    pub has_key : find_field data_fields (codes "passwordKey") ≡ some (lib.text key)

  pub IsPrepared-TellsKey :
      (ui : PairingUiData) (plain : Bytes) (device : PairedDevice) (text : Bytes)
      → IsPrepared ui plain device text
      → TellsKey m.password_key text
  unfolding response_json response_data_json response_data str_eq
  IsPrepared-TellsKey ui plain device text h = record {
    fields = _;
    data_fields = _;
    is_text = h.dumps;
    has_data = refl;
    has_key = refl;
  }

  pub IsPrepared-sealed :
      (ui : PairingUiData) (plain : Bytes) (device : PairedDevice) (text : Bytes)
      → IsPrepared ui plain device text
      → encrypt_aes_text ssl coder m.seal ui.password m.password_key ≡ some device.password_enc
  unfolding new_device
  IsPrepared-sealed ui plain device text h = rw h.is_new h.encrypts

  -- A version that has the numbers of the program's own protocol version, or that is malformed.
  abbrev pub IsTaken : Bytes → Type 0
  IsTaken version =
      (version_numbers version ≡ none)
      ⊎ ((own : List ℕ) × (numbers : List ℕ) × (version_numbers pairing_protocol_version ≡ some own)
          × (version_numbers version ≡ some numbers)
          × ((i : ℕ) → get_or own i 0 ≡ get_or numbers i 0))

  pub compare_version-IsTaken :
      (version : Bytes)
      → is_same (compare_version pairing_protocol_version version) ≡ true
      → IsTaken version
  compare_version-IsTaken version h = elim (Option-cases (version_numbers version)) [
    | inl e ↦ inl e
    | inr (numbers, e) ↦ inr (
      4 ∷ 0 ∷ 0 ∷ [],
      numbers,
      own_numbers,
      e,
      is_same-numbers (compare_version pairing_protocol_version version) (4 ∷ 0 ∷ 0 ∷ []) numbers h
          (compare_version-Says pairing_protocol_version version own_numbers e),
    )
  ]
