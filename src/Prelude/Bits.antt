-- ===== src/Prelude/Bits.antt =====
-- Laws of `bit_and` and `bit_or` at variables: one binary digit, then a block of `k` digits.
use Prim.Native.Nat.{ℕ, zero, suc, ◌+◌, ◌-◌, ◌*◌, ◌/◌, ◌%◌, ◌^◌, ◌≤◌, ◌<◌, min, max}
use Prim.Native.Nat.{bit_and, bit_or, digits, bit_and-bitwise, bit_or-bitwise}
use mathlib.Core.Path.{◌≡◌, refl, ap, ap₂, ◌∙◌}
use native.Mathlib.Nat.{pow-suc, one-le-pow}
use native.Mathlib.Omega.{arith}

-- The count of digits to go does not matter once it is at least the first number.
digits_count :
    (z : ℕ → ℕ) (f : ℕ → ℕ → ℕ) (m n a b : ℕ) → a ≤ m → a ≤ n → digits z f m a b ≡ digits z f n a b
digits_count z f zero zero a b p q = refl
digits_count z f zero (suc n) zero b p q = refl
digits_count z f zero (suc n) (suc a) b p q = absurd (omega arith)
digits_count z f (suc m) zero zero b p q = refl
digits_count z f (suc m) zero (suc a) b p q = absurd (omega arith)
digits_count z f (suc m) (suc n) zero b p q = refl
digits_count z f (suc m) (suc n) (suc a) b p q =
    ap (λ t. t * 2 + f (suc a % 2) (b % 2))
      (digits_count z f m n (suc a / 2) (b / 2) (omega arith) (omega arith))

pub bit_and_digit : (a b : ℕ) → bit_and a b ≡ bit_and (a / 2) (b / 2) * 2 + min (a % 2) (b % 2)
bit_and_digit zero b = omega (arith, bit_and-bitwise 0 b, bit_and-bitwise 0 (b / 2))
bit_and_digit (suc a) b = omega (
  arith,
  bit_and-bitwise (suc a) b,
  bit_and-bitwise (suc a / 2) (b / 2),
  digits_count (λ y. 0) min a (suc a / 2) (suc a / 2) (b / 2) (omega arith) (omega arith),
)

pub bit_or_digit : (a b : ℕ) → bit_or a b ≡ bit_or (a / 2) (b / 2) * 2 + max (a % 2) (b % 2)
bit_or_digit zero b = omega (arith, bit_or-bitwise 0 b, bit_or-bitwise 0 (b / 2))
bit_or_digit (suc a) b = omega (
  arith,
  bit_or-bitwise (suc a) b,
  bit_or-bitwise (suc a / 2) (b / 2),
  digits_count (λ y. y) max a (suc a / 2) (suc a / 2) (b / 2) (omega arith) (omega arith),
)

-- An operation that works digit by digit works block by block.
module _ (op f : ℕ → ℕ → ℕ)
    (digit : (a b : ℕ) → op a b ≡ op (a / 2) (b / 2) * 2 + f (a % 2) (b % 2))
    (none_left : op 0 0 ≡ 0) where
  block :
      (k a b r s : ℕ)
      → r < 2 ^ k
      → s < 2 ^ k
      → op (a * 2 ^ k + r) (b * 2 ^ k + s) ≡ op a b * 2 ^ k + op r s
  block zero a b r s p q =
      let r0 : r ≡ 0 = omega arith in
      let s0 : s ≡ 0 = omega arith in
      let a0 : a * 2 ^ 0 + r ≡ a = omega arith in
      let b0 : b * 2 ^ 0 + s ≡ b = omega arith in rw (a0, b0, r0, s0, none_left) (omega arith)
  block (suc k) a b r s p q =
      let a' : (a * 2 ^ suc k + r) / 2 ≡ a * 2 ^ k + r / 2 =
        omega (arith, ap (λ (t : ℕ). a * t) (pow-suc 2 k)) in
      let b' : (b * 2 ^ suc k + s) / 2 ≡ b * 2 ^ k + s / 2 =
        omega (arith, ap (λ (t : ℕ). b * t) (pow-suc 2 k)) in
      let ar : (a * 2 ^ suc k + r) % 2 ≡ r % 2 =
        omega (arith, ap (λ (t : ℕ). a * t) (pow-suc 2 k)) in
      let br : (b * 2 ^ suc k + s) % 2 ≡ s % 2 =
        omega (arith, ap (λ (t : ℕ). b * t) (pow-suc 2 k)) in
      let ih : op (a * 2 ^ k + r / 2) (b * 2 ^ k + s / 2) ≡ op a b * 2 ^ k + op (r / 2) (s / 2) =
        block k a b (r / 2) (s / 2) (omega (arith, pow-suc 2 k)) (omega (arith, pow-suc 2 k)) in
      rw (digit (a * 2 ^ suc k + r) (b * 2 ^ suc k + s), a', b', ar, br, ih, digit r s)
        (omega (arith, ap (λ (t : ℕ). op a b * t) (pow-suc 2 k)))

pub bit_and_block :
    (k a b r s : ℕ)
    → r < 2 ^ k
    → s < 2 ^ k
    → bit_and (a * 2 ^ k + r) (b * 2 ^ k + s) ≡ bit_and a b * 2 ^ k + bit_and r s
bit_and_block = block bit_and min bit_and_digit refl

pub bit_or_block :
    (k a b r s : ℕ)
    → r < 2 ^ k
    → s < 2 ^ k
    → bit_or (a * 2 ^ k + r) (b * 2 ^ k + s) ≡ bit_or a b * 2 ^ k + bit_or r s
bit_or_block = block bit_or max bit_or_digit refl

pub zero-bit_or : (a : ℕ) → bit_or 0 a ≡ a
zero-bit_or a = bit_or-bitwise 0 a

pub zero-bit_and : (a : ℕ) → bit_and 0 a ≡ 0
zero-bit_and a = bit_and-bitwise 0 a

halves : (n a : ℕ) → a ≤ n → (bit_or a 0 ≡ a) × (bit_and a 0 ≡ 0)
halves n zero h = (refl, refl)
halves zero (suc a) h = absurd (omega arith)
halves (suc n) (suc a) h =
    let ih = halves n (suc a / 2) (omega arith) in
    (omega (arith, bit_or_digit (suc a) 0, ih), omega (arith, bit_and_digit (suc a) 0, ih))

pub bit_or-zero : (a : ℕ) → bit_or a 0 ≡ a
bit_or-zero a = (halves a a (omega arith)).0

pub bit_and-zero : (a : ℕ) → bit_and a 0 ≡ 0
bit_and-zero a = (halves a a (omega arith)).1

-- A mask of `k` ones keeps a number that fits `k` digits.
pub bit_and_ones : (k r : ℕ) → r < 2 ^ k → bit_and r (2 ^ k - 1) ≡ r
bit_and_ones zero r h = let r0 : r ≡ 0 = omega arith in rw r0
bit_and_ones (suc k) r h =
    let half : (2 ^ suc k - 1) / 2 ≡ 2 ^ k - 1 = omega (arith, pow-suc 2 k, one-le-pow k 2) in
    let odd : (2 ^ suc k - 1) % 2 ≡ 1 = omega (arith, pow-suc 2 k, one-le-pow k 2) in
    let ih : bit_and (r / 2) (2 ^ k - 1) ≡ r / 2 =
      bit_and_ones k (r / 2) (omega (arith, pow-suc 2 k)) in
    rw (bit_and_digit r (2 ^ suc k - 1), half, odd, ih) (omega arith)

-- A mask of the `k` low digits is the remainder by `2 ^ k`.
pub bit_and_mask : (k q r : ℕ) → r < 2 ^ k → bit_and (q * 2 ^ k + r) (2 ^ k - 1) ≡ r
bit_and_mask k q r h =
    let at_zero : 2 ^ k - 1 ≡ 0 * 2 ^ k + (2 ^ k - 1) = omega arith in
    let fits : 2 ^ k - 1 < 2 ^ k = omega (arith, one-le-pow k 2) in
    ap (bit_and (q * 2 ^ k + r)) at_zero
    ∙ bit_and_block k q 0 r (2 ^ k - 1) h fits
    ∙ rw (bit_and-zero q, bit_and_ones k r h) (omega arith)

-- `|` of a number that fits `k` digits and one shifted by `k` is their sum.
pub bit_or_fields : (k q r : ℕ) → r < 2 ^ k → bit_or r (q * 2 ^ k) ≡ q * 2 ^ k + r
bit_or_fields k q r h =
    let left : r ≡ 0 * 2 ^ k + r = omega arith in
    let right : q * 2 ^ k ≡ q * 2 ^ k + 0 = omega arith in
    ap₂ bit_or left right
    ∙ bit_or_block k 0 q r 0 h (omega (arith, one-le-pow k 2))
    ∙ rw (zero-bit_or q, bit_or-zero r)

-- The other way round: a shifted number `|` one that fits below it.
pub bit_or_fields_high : (k q r : ℕ) → r < 2 ^ k → bit_or (q * 2 ^ k) r ≡ q * 2 ^ k + r
bit_or_fields_high k q r h =
    let left : q * 2 ^ k ≡ q * 2 ^ k + 0 = omega arith in
    let right : r ≡ 0 * 2 ^ k + r = omega arith in
    ap₂ bit_or left right
    ∙ bit_or_block k q 0 0 r (omega (arith, one-le-pow k 2)) h
    ∙ rw (bit_or-zero q, zero-bit_or r) refl

le_of_halves : (n a b : ℕ) → a ≤ n → bit_and a b ≤ a
le_of_halves n zero b h = omega (arith, zero-bit_and b)
le_of_halves zero (suc a) b h = absurd (omega arith)
le_of_halves (suc n) (suc a) b h =
    omega (arith, bit_and_digit (suc a) b, le_of_halves n (suc a / 2) (b / 2) (omega arith))

pub bit_and_le : (a b : ℕ) → bit_and a b ≤ a
bit_and_le a b = le_of_halves a a b (omega arith)

-- A mask that fits `k` digits sees the low `k` digits only.
pub bit_and_low :
    (k w m : ℕ) → m < 2 ^ k → (q r : ℕ) → r < 2 ^ k → w ≡ q * 2 ^ k + r → bit_and w m ≡ bit_and r m
bit_and_low k w m h q r small e =
    let right : m ≡ 0 * 2 ^ k + m = omega arith in
    ap₂ bit_and e right ∙ bit_and_block k q 0 r m small h ∙ rw (bit_and-zero q) (omega arith)
