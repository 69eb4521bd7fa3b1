-- ===== src/Crypt/Packets.antt =====
-- Packets and texts that are encrypted on one side and decrypted on the other.
use pcbu_desktop.Base.{
  ℕ, ◌+◌, ◌*◌, ◌^◌, ◌≤◌, ◌<◌, ◌≡◌, refl, false, ◌&&◌, [], ◌∷◌, ◌++◌, none, some, leb, if◌then◌else◌,
  Bytes, length, take, drop, is_empty, arith, lt→ltb, le→ltb,
}
use pcbu_desktop.Packet.{PacketError, be_bytes, be_value}
use pcbu_desktop.Crypt.{
  crypt_packet_timeout, ok, invalid_timestamp, crypt_error, OpenSsl, HexCoder, is_outdated, Randoms,
  encrypt_aes_packet, decrypt_aes_packet, to_hex_string, from_hex_string, encrypt_aes_text,
  decrypt_aes_text,
}
use pcbu_desktop.Crypt.RoundTrip.{
  IsSealed, sealed, length-sealed, encrypt_aes-sealed, decrypt_aes-sealed,
}

be_value-timestamp :
    (x : ℕ) (bytes : Bytes) → x < 2 ^ 63 → be_value 0 (take 8 (be_bytes 8 x ++ bytes)) ≡ x
unfolding be_value be_bytes
be_value-timestamp x bytes h = omega arith

drop-timestamp : (x : ℕ) (bytes : Bytes) → drop 8 (be_bytes 8 x ++ bytes) ≡ bytes
unfolding be_bytes
drop-timestamp x bytes = refl

length-timestamp : (x : ℕ) (bytes : Bytes) → length (be_bytes 8 x ++ bytes) ≡ length bytes + 8
unfolding be_bytes
length-timestamp x bytes = omega arith

leb-no : (a b : ℕ) → b < a → leb a b ≡ false
leb-no a b h = ground arith

is_empty-no : (bytes : Bytes) → 0 < length bytes → is_empty bytes ≡ false
is_empty-no [] h = absurd (omega arith)
is_empty-no (x ∷ bytes) h = refl

is_outdated-window {ℓ} :
    {A : Type ℓ} (later now : ℕ) (x y : A)
    → now < 2 ^ 63
    → (if is_outdated later now then x else y) ≡ (
        if leb later (now + crypt_packet_timeout) && leb now (later + crypt_packet_timeout)
        then y
        else x)
unfolding is_outdated
is_outdated-window later now x y signed = ground arith

module _ (ssl : OpenSsl) (r : Randoms) (now later : ℕ) (bytes pwd : Bytes) where
  encrypt_aes_packet-sealed :
      (h : IsSealed ssl r pwd (be_bytes 8 now ++ bytes))
      → length bytes + 56 ≤ 2048
      → encrypt_aes_packet ssl r now bytes pwd ≡ record {
        result = ok;
        error = PacketError.unknown;
        payload = sealed ssl r pwd (be_bytes 8 now ++ bytes) h;
      }
  unfolding encrypt_aes_packet
  encrypt_aes_packet-sealed h fits =
      let size = length-timestamp now bytes in
      let total = length-sealed ssl r pwd (be_bytes 8 now ++ bytes) h in
      rw
        (
          le→ltb 2048 (length bytes) (omega arith),
          encrypt_aes-sealed ssl r pwd (be_bytes 8 now ++ bytes) h 2048 (omega (arith, size)),
        )
        (rw (
          leb-no (length (sealed ssl r pwd (be_bytes 8 now ++ bytes) h)) 8
            (omega (arith, size, total))))

  decrypt_aes_packet-sealed :
      (h : IsSealed ssl r pwd (be_bytes 8 now ++ bytes))
      → 0 < length bytes
      → length bytes + 56 ≤ 2048
      → now < 2 ^ 63
      → decrypt_aes_packet ssl later (sealed ssl r pwd (be_bytes 8 now ++ bytes) h) pwd ≡ (
          if is_outdated later now
          then crypt_error invalid_timestamp
          else record { result = ok; error = PacketError.unknown; payload = bytes })
  unfolding decrypt_aes_packet
  decrypt_aes_packet-sealed h some_bytes fits signed =
      let plain = be_bytes 8 now ++ bytes in
      let size = length-timestamp now bytes in
      let total = length-sealed ssl r pwd plain h in
      rw
        (
          le→ltb 2048 (length (sealed ssl r pwd plain h)) (omega (arith, size, total)),
          decrypt_aes-sealed ssl r pwd plain h 2048 (omega (arith, size)),
        )
        (rw
          (
            leb-no (length plain) 8 (omega (arith, size)),
            be_value-timestamp now bytes signed,
            drop-timestamp now bytes,
          )
          refl)

  -- A packet of 1 to 1992 bytes that is encrypted at one time and decrypted at another is accepted with its
  -- bytes if the two clocks differ by at most the packet timeout, and is refused as outdated otherwise. The
  -- key, iv, salt and tag have their documented sizes, AES-GCM opens what it seals, and the sender's clock
  -- is a signed number of 64 bits.
  pub decrypt_aes_packet-encrypt :
      IsSealed ssl r pwd (be_bytes 8 now ++ bytes)
      → 0 < length bytes
      → length bytes + 56 ≤ 2048
      → now < 2 ^ 63
      → decrypt_aes_packet ssl later (encrypt_aes_packet ssl r now bytes pwd).payload pwd ≡ (
          if leb later (now + crypt_packet_timeout) && leb now (later + crypt_packet_timeout)
          then record { result = ok; error = PacketError.unknown; payload = bytes }
          else crypt_error invalid_timestamp)
  decrypt_aes_packet-encrypt h some_bytes fits signed =
      rw (encrypt_aes_packet-sealed h fits, decrypt_aes_packet-sealed h some_bytes fits signed)
        (is_outdated-window later now _ _ signed)

module _ (ssl : OpenSsl) (coder : HexCoder) (r : Randoms) (text pwd : Bytes) where
  encrypt_aes_text-sealed :
      (h : IsSealed ssl r pwd text)
      → length text + 48 ≤ 2048
      → encrypt_aes_text ssl coder r text pwd ≡ some (coder.hex (sealed ssl r pwd text h))
  unfolding encrypt_aes_text to_hex_string
  encrypt_aes_text-sealed h fits =
      let total = length-sealed ssl r pwd text h in
      rw (le→ltb 2048 (length text) (omega arith), encrypt_aes-sealed ssl r pwd text h 2048 fits)
        (rw (is_empty-no (sealed ssl r pwd text h) (omega (arith, total))))

  -- A text of 1 to 976 bytes that is encrypted to hex is decrypted to the same text, where key, iv, salt and
  -- tag have their documented sizes, AES-GCM opens what it seals and the hex coder reads what it writes.
  pub decrypt_aes_text-encrypt :
      IsSealed ssl r pwd text
      → ((bytes : Bytes) → coder.unhex (coder.hex bytes) ≡ some bytes)
      → ((bytes : Bytes) → length (coder.hex bytes) ≡ 2 * length bytes)
      → 0 < length text
      → length text ≤ 976
      → (out : Bytes) × (encrypt_aes_text ssl coder r text pwd ≡ some out)
        × (decrypt_aes_text ssl coder out pwd ≡ some text)
  unfolding decrypt_aes_text from_hex_string
  decrypt_aes_text-encrypt h reads doubles some_text fits =
      let total = length-sealed ssl r pwd text h in
      let inner = sealed ssl r pwd text h in
      let out = coder.hex inner in
      (
        out,
        encrypt_aes_text-sealed h (omega arith),
        rw
            (
              le→ltb 2048 (length out) (omega (arith, total, doubles inner)),
              reads inner,
              from_hex_string,
              is_empty-no inner (omega (arith, total)),
            )
            (rw (decrypt_aes-sealed ssl r pwd text h 2048 (omega arith))
              (rw (is_empty-no text some_text))),
      )

  -- A text of 977 to 2000 bytes is encrypted to hex, and the result is never decrypted: DecryptAES compares
  -- the length of the hex text, two digits a byte, with the size of its buffer.
  pub decrypt_aes_text-too_long :
      IsSealed ssl r pwd text
      → ((bytes : Bytes) → length (coder.hex bytes) ≡ 2 * length bytes)
      → 976 < length text
      → length text ≤ 2000
      → (out : Bytes) × (encrypt_aes_text ssl coder r text pwd ≡ some out)
        × (decrypt_aes_text ssl coder out pwd ≡ none)
  unfolding decrypt_aes_text
  decrypt_aes_text-too_long h doubles long fits =
      let total = length-sealed ssl r pwd text h in
      let out = coder.hex (sealed ssl r pwd text h) in
      (
        out,
        encrypt_aes_text-sealed h (omega arith),
        rw (lt→ltb 2048 (length out) (omega (arith, total, doubles (sealed ssl r pwd text h))))
            refl,
      )
