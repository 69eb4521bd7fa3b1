-- ===== src/Settings/Config/Numbers.antt =====
-- The numbers that `config set` reads and `config get` prints.
use mathlib.Core.Option.{some-injective}
use native.Mathlib.Nat.{add-mul, mul_assoc, pow-succ'}
use pcbu_desktop.Base.{
  ℕ, suc, ◌+◌, ◌-◌, ◌*◌, ◌^◌, ◌<◌, ◌≤◌, ◌≡◌, sym, ap, ◌∙◌, inl, inr, false, ◌&&◌, [], ◌∷◌, some,
  ltb, leb, Bytes, length, is_empty, All, Bool-cases, Option-cases, arith,
}
use pcbu_desktop.Settings.Config.{read_decimal, parse_number, fitting}

-- The value of the decimal digits of a text, each with the weight of its position.
abbrev pub decimal_value : Bytes → ℕ
decimal_value [] = 0
decimal_value (c ∷ cs) = (c - b'0') * 10 ^ length cs + decimal_value cs

-- A text of at least one digit, and of no other bytes, with a value.
abbrev pub IsDecimal : Bytes → ℕ → Type 0
IsDecimal text n =
    (is_empty text ≡ false) × All (λ c. (b'0' ≤ c) × (c ≤ b'9')) text × (decimal_value text ≡ n)

weights : (acc d p v : ℕ) → (acc * 10 + d) * p + v ≡ acc * (10 * p) + (d * p + v)
weights acc d p v =
    let split : (acc * 10 + d) * p ≡ acc * 10 * p + d * p = add-mul (acc * 10) d p in
    let turned : acc * 10 * p ≡ acc * (10 * p) = mul_assoc acc 10 p in
    rw (split, turned) (omega arith)

power : (k : ℕ) → 10 * 10 ^ k ≡ 10 ^ (suc k)
power k = sym (pow-succ' 10 k)

read_decimal-digits_only :
    (acc : ℕ) (text : Bytes) (n : ℕ)
    → read_decimal acc text ≡ some n
    → All (λ c. (b'0' ≤ c) × (c ≤ b'9')) text × (n ≡ acc * 10 ^ length text + decimal_value text)
unfolding read_decimal
read_decimal-digits_only acc [] n e = (tt, let same = some-injective _ _ e in omega arith)
read_decimal-digits_only acc (c ∷ cs) n e = elim (Bool-cases (leb b'0' c && leb c b'9')) [
  | inr other ↦ let none_read = rw other at e in absurd cc
  | inl digit ↦
      let (digits, same) = read_decimal-digits_only (acc * 10 + (c - b'0')) cs n (rw digit at e) in
      (
        (ground arith, digits),
        same
            ∙ weights acc (c - b'0') (10 ^ length cs) (decimal_value cs)
            ∙ ap (λ p. acc * p + ((c - b'0') * 10 ^ length cs + decimal_value cs))
                (power (length cs)),
      )
]

fitting-fits : (bits n : ℕ) {m : ℕ} → fitting bits (some m) ≡ some n → (m ≡ n) × (n < 2 ^ bits)
fitting-fits bits n {m} e = elim (Bool-cases (ltb m (2 ^ bits))) [
  | inl fits ↦
      let same = some-injective _ _ (rw fits at e) in
      (let below : m < 2 ^ bits = ground arith in (same, rw same at below))
  | inr large ↦ let none_read = rw large at e in absurd cc
]

-- What ParseNumber accepts for a type of some bits is a decimal numeral, and its value, which fits the type.
pub parse_number-IsDecimal :
    (bits : ℕ) (value : Bytes) (n : ℕ)
    → parse_number bits value ≡ some n
    → IsDecimal value n × (n < 2 ^ bits)
unfolding parse_number
parse_number-IsDecimal bits value n e = elim (Bool-cases (is_empty value)) [
  | inl nothing ↦ let none_read = rw nothing at e in absurd cc
  | inr filled ↦ elim (Option-cases (read_decimal 0 value)) [
    | inl bad ↦ let none_read = rw (filled, bad) at e in absurd cc
    | inr (m, read) ↦
        let (same, fits) = fitting-fits bits n (rw (filled, read) at e) in
        let (digits, whole) = read_decimal-digits_only 0 value m read in
        ((filled, digits, (let v : decimal_value value ≡ m = omega arith in v ∙ same)), fits)
  ]
]
