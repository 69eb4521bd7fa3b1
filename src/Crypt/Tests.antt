-- ===== src/Crypt/Tests.antt =====
-- A cipher without secrets, with the sizes of AES-GCM, and a hex coder that writes each byte twice.
use pcbu_desktop.Base.{
  ℕ, zero, suc, ◌+◌, ◌*◌, ◌≡◌, refl, [], ◌∷◌, ◌++◌, Option, none, some, ◌&&◌, if◌then◌else◌, leb,
  Bytes, codes, length, arith,
}
use pcbu_desktop.Packet.{PacketError, be_bytes}
use pcbu_desktop.Crypt.{
  crypt_packet_timeout, ok, invalid_timestamp, crypt_error, OpenSsl, HexCoder, Randoms,
  encrypt_aes_packet, decrypt_aes_packet, encrypt_aes_text, decrypt_aes_text,
}
use pcbu_desktop.Crypt.RoundTrip.{IsSealed}
use pcbu_desktop.Crypt.Packets.{
  decrypt_aes_packet-encrypt, decrypt_aes_text-encrypt, decrypt_aes_text-too_long,
}

abbrev pub repeat : ℕ → ℕ → Bytes
repeat zero b = []
repeat (suc n) b = b ∷ repeat n b

length-repeat : (n b : ℕ) → length (repeat n b) ≡ n
length-repeat zero b = refl
length-repeat (suc n) b = omega (arith, length-repeat n b)

abbrev pub plain_ssl : OpenSsl
plain_ssl = record {
  derive = λ pwd salt. some pwd;
  seal = λ key iv src. some (src, repeat 16 0);
  unseal = λ key iv text tag. some text;
}

abbrev pub twice : Bytes → Bytes
twice [] = []
twice (b ∷ bs) = b ∷ b ∷ twice bs

abbrev pub halve : Bytes → Option Bytes
halve [] = some []
halve (b ∷ []) = none
halve (b ∷ c ∷ bs) = elim (halve bs) [ none ↦ none | some rest ↦ some (b ∷ rest) ]

abbrev pub twice_coder : HexCoder
twice_coder = record { hex = twice; unhex = halve }

pub halve-twice : (bs : Bytes) → halve (twice bs) ≡ some bs
halve-twice [] = refl
halve-twice (b ∷ bs) = rw (halve-twice bs) refl

pub length-twice : (bs : Bytes) → length (twice bs) ≡ 2 * length bs
length-twice [] = refl
length-twice (b ∷ bs) = omega (arith, length-twice bs)

abbrev pub randoms : Randoms
randoms = record { iv = some (repeat 16 1); salt = some (repeat 16 2) }

pub plain-IsSealed : (pwd src : Bytes) → IsSealed plain_ssl randoms pwd src
plain-IsSealed pwd src = record {
  iv = repeat 16 1;
  salt = repeat 16 2;
  key = _;
  text = src;
  tag = repeat 16 0;
  random_iv = refl;
  random_salt = refl;
  derives = refl;
  seals = refl;
  unseals = refl;
  iv_length = refl;
  salt_length = refl;
  text_length = refl;
  tag_length = refl;
}

decrypt_aes_packet-encrypt_example :
    decrypt_aes_packet plain_ssl 1200
      (encrypt_aes_packet plain_ssl randoms 1000 (7 ∷ 8 ∷ []) (codes "k")).payload
      (codes "k")
    ≡ (if leb 1200 (1000 + crypt_packet_timeout) && leb 1000 (1200 + crypt_packet_timeout)
        then record { result = ok; error = PacketError.unknown; payload = 7 ∷ 8 ∷ [] }
        else crypt_error invalid_timestamp)
decrypt_aes_packet-encrypt_example =
    decrypt_aes_packet-encrypt plain_ssl randoms 1000 1200 (7 ∷ 8 ∷ []) (codes "k")
      (plain-IsSealed (codes "k") (be_bytes 8 1000 ++ (7 ∷ 8 ∷ []))) (omega arith) (omega arith)
      (omega arith)

decrypt_aes_text-encrypt_example :
    (out : Bytes) × (encrypt_aes_text plain_ssl twice_coder randoms (codes "secret") (codes "k")
      ≡ some out)
    × (decrypt_aes_text plain_ssl twice_coder out (codes "k") ≡ some (codes "secret"))
decrypt_aes_text-encrypt_example =
    decrypt_aes_text-encrypt plain_ssl twice_coder randoms (codes "secret") (codes "k")
      (plain-IsSealed (codes "k") (codes "secret")) halve-twice length-twice (omega arith)
      (omega arith)

decrypt_aes_text-too_long_example :
    (out : Bytes) × (encrypt_aes_text plain_ssl twice_coder randoms (repeat 1000 7) (codes "k")
      ≡ some out)
    × (decrypt_aes_text plain_ssl twice_coder out (codes "k") ≡ none)
decrypt_aes_text-too_long_example =
    decrypt_aes_text-too_long plain_ssl twice_coder randoms (repeat 1000 7) (codes "k")
      (plain-IsSealed (codes "k") (repeat 1000 7)) length-twice
      (omega (arith, length-repeat 1000 7)) (omega (arith, length-repeat 1000 7))
