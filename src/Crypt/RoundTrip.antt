-- ===== src/Crypt/RoundTrip.antt =====
-- What is encrypted is decrypted again, up to the sizes that the buffers allow.
use pcbu_desktop.Base.{
  ℕ, ◌+◌, ◌-◌, ◌≤◌, ◌≡◌, false, ◌++◌, some, ltb, Bytes, length, take, drop, arith, length-append,
  take-append_self, drop-append_self, le→ltb,
}
use pcbu_desktop.Crypt.{OpenSsl, c_str, Randoms, seal_parts, encrypt_aes, unseal_parts, decrypt_aes}

-- One encryption that works: key, text and tag of the documented sizes, and AES-GCM opens what it seals.
pub record IsSealed (ssl : OpenSsl) (r : Randoms) (pwd src : Bytes) : Type 0 where
  pub iv : Bytes
  pub salt : Bytes
  pub key : Bytes
  pub text : Bytes
  pub tag : Bytes
  pub random_iv : r.iv ≡ some iv
  pub random_salt : r.salt ≡ some salt
  pub derives : ssl.derive (c_str pwd) salt ≡ some key
  pub seals : ssl.seal key iv src ≡ some (text, tag)
  pub unseals : ssl.unseal key iv text tag ≡ some src
  pub iv_length : length iv ≡ 16
  pub salt_length : length salt ≡ 16
  pub text_length : length text ≡ length src
  pub tag_length : length tag ≡ 16

take_exactly : (n : ℕ) (xs ys : Bytes) → length xs ≡ n → take n (xs ++ ys) ≡ xs
take_exactly n xs ys e = rw⁻¹ e (take-append_self xs ys)

drop_exactly : (n : ℕ) (xs ys : Bytes) → length xs ≡ n → drop n (xs ++ ys) ≡ ys
drop_exactly n xs ys e = rw⁻¹ e (drop-append_self xs ys)

module _ (ssl : OpenSsl) (r : Randoms) (pwd src : Bytes) (h : IsSealed ssl r pwd src) where
  abbrev pub sealed : Bytes
  sealed = h.iv ++ (h.salt ++ (h.text ++ h.tag))

  pub length-sealed : length sealed ≡ length src + 48
  length-sealed =
      rw
        (
          length-append, h.iv_length, length-append, h.salt_length, length-append, h.tag_length,
          h.text_length,
        )
        (omega arith)

  pub encrypt_aes-sealed :
      (dst_len : ℕ) → length src + 48 ≤ dst_len → encrypt_aes ssl r src dst_len pwd ≡ some sealed
  unfolding encrypt_aes seal_parts
  encrypt_aes-sealed dst_len fits =
      let fits2 : ltb dst_len (length src + 16 + 16 + 16) ≡ false = le→ltb _ _ (omega arith) in
      rw (fits2, h.random_iv, h.random_salt) (rw (h.derives, seal_parts) (rw h.seals))

  unseal_parts-sealed : unseal_parts ssl h.iv (h.salt ++ (h.text ++ h.tag)) pwd ≡ some src
  unfolding unseal_parts
  unseal_parts-sealed =
      let size : length (h.text ++ h.tag) - 16 ≡ length h.text =
        rw (length-append, h.tag_length) (omega arith) in
      rw (take_exactly 16 h.salt (h.text ++ h.tag) h.salt_length, h.derives, unseal_parts)
        (rw
          (
            drop_exactly 16 h.salt (h.text ++ h.tag) h.salt_length,
            size,
            take-append_self,
            drop-append_self,
          )
          h.unseals)

  pub decrypt_aes-sealed :
      (dst_len : ℕ) → length src ≤ dst_len → decrypt_aes ssl sealed dst_len pwd ≡ some src
  unfolding decrypt_aes
  decrypt_aes-sealed dst_len fits =
      let long : ltb (length sealed) 48 ≡ false = le→ltb _ _ (omega (arith, length-sealed)) in
      let roomy : ltb dst_len (length sealed - 16 - 16 - 16) ≡ false =
        le→ltb _ _ (omega (arith, length-sealed)) in
      rw (long, roomy)
        (rw
          (
            take_exactly 16 h.iv (h.salt ++ (h.text ++ h.tag)) h.iv_length,
            drop_exactly 16 h.iv (h.salt ++ (h.text ++ h.tag)) h.iv_length,
          )
          unseal_parts-sealed)
