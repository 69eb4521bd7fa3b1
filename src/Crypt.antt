-- ===== src/Crypt.antt =====
-- Encrypted packets and texts: common/src/utils/CryptUtils.cpp and the hex texts of
-- common/src/utils/StringUtils.cpp.
--
-- OpenSSL and Boost's hex coder are the interfaces `OpenSsl` and `HexCoder`. The random bytes of an
-- operation and the clock are its arguments. Memory is always allocated here.
pub mod RoundTrip
pub mod Packets
pub mod Tests
use pcbu_desktop.Base.{
  ℕ, ◌+◌, ◌-◌, ◌*◌, ◌^◌, Bool, true, false, not, ◌||◌, List, [], ◌∷◌, ◌++◌, Option, none, some,
  ◌==◌, ltb, leb, if◌then◌else◌, Bytes, length, take, drop, is_empty,
}
use pcbu_desktop.Packet.{PacketError, no_error, be_bytes, be_value}

abbrev pub iv_size : ℕ
iv_size = 16

abbrev pub salt_size : ℕ
salt_size = 16

abbrev pub gcm_tag_size : ℕ
gcm_tag_size = 16

abbrev pub crypt_buffer_size : ℕ
crypt_buffer_size = 2048

abbrev pub crypt_packet_timeout : ℕ
crypt_packet_timeout = 60000 * 2

pub data PacketCryptResult : Type 0 where
  ok invalid_timestamp packet_error other_error : PacketCryptResult

pub record CryptPacket : Type 0 where
  pub result : PacketCryptResult
  pub error : PacketError
  pub payload : Bytes

-- `{result}`: an error value is PacketError's first one, UNKNOWN, when it is not given.
abbrev pub crypt_error : PacketCryptResult → CryptPacket
crypt_error result = record { result = result; error = PacketError.unknown; payload = [] }

-- `derive` is PBKDF2 on a password and a salt. `seal` encrypts under a key and an iv, and gives the text
-- and its tag; `unseal` takes key, iv, text and tag, and fails where the tag is wrong.
pub record OpenSsl : Type 0 where
  pub derive : Bytes → Bytes → Option Bytes
  pub seal : Bytes → Bytes → Bytes → Option (Bytes × Bytes)
  pub unseal : Bytes → Bytes → Bytes → Bytes → Option Bytes

pub record HexCoder : Type 0 where
  pub hex : Bytes → Bytes
  pub unhex : Bytes → Option Bytes

-- What a `const char *` holds: the bytes before the first zero.
unfoldable pub c_str : Bytes → Bytes
c_str [] = []
c_str (b ∷ bs) = let rest = c_str bs in if b == 0 then [] else b ∷ rest

unfoldable pub to_hex_string : HexCoder → Bytes → Bytes
to_hex_string coder bytes = coder.hex bytes

unfoldable pub from_hex_string : HexCoder → Bytes → Bytes
from_hex_string coder text = elim (coder.unhex text) [ none ↦ [] | some bytes ↦ bytes ]

-- `timeDiff < -CRYPT_PACKET_TIMEOUT || timeDiff > CRYPT_PACKET_TIMEOUT`, on a timestamp that is read as a
-- signed number of 64 bits.
unfoldable pub is_outdated : ℕ → ℕ → Bool
is_outdated now timestamp =
    if ltb timestamp (2 ^ 63)
    then ltb (now + crypt_packet_timeout) timestamp || ltb (timestamp + crypt_packet_timeout) now
    else ltb crypt_packet_timeout (now + (2 ^ 64 - timestamp))

-- The random bytes of one encryption: `none` where RAND_bytes fails.
pub record Randoms : Type 0 where
  pub iv : Option Bytes
  pub salt : Option Bytes

module _ (ssl : OpenSsl) where
  unfoldable pub seal_parts : Bytes → Bytes → Bytes → Bytes → Option Bytes
  seal_parts iv salt src pwd = elim (ssl.derive (c_str pwd) salt) [
    | none ↦ none
    | some key ↦ elim (ssl.seal key iv src) [
      | none ↦ none
      | some (text, tag) ↦ some (iv ++ (salt ++ (text ++ tag)))
    ]
  ]

  -- What EncryptAES writes into a buffer of `dst_len` bytes: `none` where it returns 0.
  unfoldable pub encrypt_aes : Randoms → Bytes → ℕ → Bytes → Option Bytes
  unfolding seal_parts
  encrypt_aes r src dst_len pwd =
      if ltb dst_len (length src + salt_size + iv_size + gcm_tag_size) then none else elim r.iv [
        | none ↦ none
        | some iv ↦ elim r.salt [ none ↦ none | some salt ↦ seal_parts iv salt src pwd ]
      ]

  unfoldable pub unseal_parts : Bytes → Bytes → Bytes → Option Bytes
  unseal_parts iv src pwd = elim (ssl.derive (c_str pwd) (take salt_size src)) [
    | none ↦ none
    | some key ↦
        let body = drop salt_size src in
        let size = length body - gcm_tag_size in ssl.unseal key iv (take size body) (drop size body)
  ]

  -- What DecryptAES writes into a buffer of `dst_len` bytes.
  unfoldable pub decrypt_aes : Bytes → ℕ → Bytes → Option Bytes
  unfolding unseal_parts
  decrypt_aes src dst_len pwd =
      if ltb (length src) (iv_size + salt_size + gcm_tag_size)
        || ltb dst_len (length src - iv_size - salt_size - gcm_tag_size)
      then none
      else unseal_parts (take iv_size src) (drop iv_size src) pwd

  unfoldable pub encrypt_aes_packet : Randoms → ℕ → Bytes → Bytes → CryptPacket
  unfolding be_bytes
  encrypt_aes_packet r now bytes pwd =
      if ltb crypt_buffer_size (length bytes)
      then crypt_error other_error
      else elim (encrypt_aes r (be_bytes 8 now ++ bytes) crypt_buffer_size pwd) [
        | none ↦ crypt_error other_error
        | some result ↦
            if leb (length result) 8
            then crypt_error other_error
            else record { result = ok; error = PacketError.unknown; payload = result }
      ]

  unfoldable pub decrypt_aes_packet : ℕ → Bytes → Bytes → CryptPacket
  unfolding be_value is_outdated
  decrypt_aes_packet now bytes pwd =
      if ltb crypt_buffer_size (length bytes)
      then crypt_error other_error
      else elim (decrypt_aes bytes crypt_buffer_size pwd) [
        | none ↦ crypt_error other_error
        | some plain ↦
            if leb (length plain) 8
            then crypt_error other_error
            else if is_outdated now (be_value 0 (take 8 plain))
            then crypt_error invalid_timestamp
            else record { result = ok; error = PacketError.unknown; payload = drop 8 plain }
      ]

  -- The EncryptAES that works on texts.
  unfoldable pub encrypt_aes_text : HexCoder → Randoms → Bytes → Bytes → Option Bytes
  unfolding to_hex_string
  encrypt_aes_text coder r text pwd =
      if ltb crypt_buffer_size (length text)
      then none
      else elim (encrypt_aes r text crypt_buffer_size pwd) [
        | none ↦ none
        | some result ↦ if is_empty result then none else some (to_hex_string coder result)
      ]

  -- The DecryptAES that works on texts.
  unfoldable pub decrypt_aes_text : HexCoder → Bytes → Bytes → Option Bytes
  unfolding from_hex_string
  decrypt_aes_text coder text pwd =
      if ltb crypt_buffer_size (length text)
      then none
      else let bytes = from_hex_string coder text in
        if is_empty bytes then none else elim (decrypt_aes bytes crypt_buffer_size pwd) [
          | none ↦ none
          | some plain ↦ if is_empty plain then none else some plain
        ]
