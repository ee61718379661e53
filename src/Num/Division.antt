-- ===== src/Num/Division.antt =====
-- src/prims/num.rs: division and shifts on `i64`.
use x_engine_rust.Prelude.{
  ℕ, zero, suc, ◌+◌, ◌-◌, ◌*◌, ◌/◌, ◌%◌, ◌^◌, ◌≤◌, ◌<◌, ◌≡◌, refl, ◌∙◌, ◌⊎◌, inl, inr, Bool, true,
  false, ◌&&◌, arith, Bool-cases,
}
use x_engine_rust.Prelude.Int.{
  ℤ, pos, negsuc, sub_ℕ, ◌+ℤ◌, ◌*ℤ◌, ◌≤ℤ◌, pos_part, neg_part, beq_ℤ, eq_of_parts,
}
use native.Mathlib.Nat.{mod-lt}
use x_engine_rust.Num.{
  min_i64, shift_down, shift_count, shr, magnitude, quotient, remainder, div, rem,
}

div_mod : (a b : ℕ) → a / b * b + a % b ≡ a
div_mod a b = grind arith

sub_pos : (a b : ℕ) → pos_part (sub_ℕ a b) ≡ a - b
sub_pos a b = ground arith

sub_neg : (a b : ℕ) → neg_part (sub_ℕ a b) ≡ b - a
sub_neg a b = ground arith

neg_pos : (n : ℕ) → pos_part (sub_ℕ 0 n) ≡ 0
neg_pos n = ground arith

neg_neg : (n : ℕ) → neg_part (sub_ℕ 0 n) ≡ n
neg_neg n = ground arith

magnitude_neg : (n : ℕ) → magnitude (sub_ℕ 0 n) ≡ n
magnitude_neg n = ground arith

beq_eq : (a b : ℤ) → beq_ℤ a b ≡ true → a ≡ b
beq_eq a b h = eq_of_parts a b (ground arith)

positive : (y : ℤ) → beq_ℤ y (pos 0) ≡ false → 0 < magnitude y
positive (pos b) e = ground arith
positive (negsuc b) e = omega arith

both_true : (a b : Bool) → (a && b) ≡ true → (a ≡ true) × (b ≡ true)
both_true true true h = (refl, refl)
both_true true false h = cc
both_true false b h = cc

-- The quotient times the divisor plus the remainder, from the parts of the four numbers.
quotient_of_parts :
    (q y r x : ℤ)
    → pos_part q * pos_part y + neg_part q * neg_part y + pos_part r + neg_part x
      ≡ pos_part q * neg_part y + neg_part q * pos_part y + neg_part r + pos_part x
    → (q *ℤ y) +ℤ r ≡ x
unfolding ◌*ℤ◌ ◌+ℤ◌
quotient_of_parts q y r x h =
    close (pos_part q * pos_part y + neg_part q * neg_part y)
      (pos_part q * neg_part y + neg_part q * pos_part y) x (pos_part r) (neg_part r) h
  where
    close :
        (a b : ℕ) (x : ℤ) (p n : ℕ)
        → a + p + neg_part x ≡ b + n + pos_part x
        → sub_ℕ (pos_part (sub_ℕ a b) + p) (neg_part (sub_ℕ a b) + n) ≡ x
    close a b (pos k) p n h = rw (sub_pos a b, sub_neg a b) (ground arith)
    close a b (negsuc k) p n h = rw (sub_pos a b, sub_neg a b) (ground arith)

pub quotient-remainder : (x y : ℤ) → (quotient x y *ℤ y) +ℤ remainder x y ≡ x
quotient-remainder x y = quotient_of_parts (quotient x y) y (remainder x y) x (parts x y)
  where
    parts :
        (x y : ℤ)
        → pos_part (quotient x y) * pos_part y
            + neg_part (quotient x y) * neg_part y
            + pos_part (remainder x y)
            + neg_part x
          ≡ pos_part (quotient x y) * neg_part y
            + neg_part (quotient x y) * pos_part y
            + neg_part (remainder x y)
            + pos_part x
    parts (pos a) (pos b) =
        let z : a / b * b + 0 * 0 + a % b + 0 ≡ a / b * 0 + 0 * b + 0 + a =
          omega (arith, div_mod a b) in
        z
    parts (pos a) (negsuc b) =
        rw (neg_pos (a / suc b), neg_neg (a / suc b))
          (let z : 0 * 0 + a / suc b * suc b + a % suc b + 0 ≡ 0 * suc b + a / suc b * 0 + 0 + a =
              omega (arith, div_mod a (suc b)) in
            z)
    parts (negsuc a) (pos b) =
        rw (neg_pos (suc a / b), neg_neg (suc a / b), neg_pos (suc a % b), neg_neg (suc a % b))
          (let z : 0 * b + suc a / b * 0 + 0 + suc a ≡ 0 * 0 + suc a / b * b + suc a % b + 0 =
              omega (arith, div_mod (suc a) b) in
            z)
    parts (negsuc a) (negsuc b) =
        rw (neg_pos (suc a % suc b), neg_neg (suc a % suc b))
          (let z : suc a / suc b * 0 + 0 * suc b + 0 + suc a
                ≡ suc a / suc b * suc b + 0 * 0 + suc a % suc b + 0 =
              omega (arith, div_mod (suc a) (suc b)) in
            z)

-- The remainder is smaller than the divisor.
remainder_small : (x y : ℤ) → 0 < magnitude y → magnitude (remainder x y) < magnitude y
remainder_small (pos a) y h = mod-lt a h
remainder_small (negsuc a) y h = rw (magnitude_neg (suc a % magnitude y)) (mod-lt (suc a) h)

-- `div` and `rem` on `i64` values: the quotient times the divisor plus the remainder is the number
-- divided, with a remainder smaller than the divisor, unless the divisor is zero or the division
-- is `i64::MIN / -1`; in those two cases both answer zero.
pub div-rem :
    (x y : ℤ)
    → ((div x y *ℤ y) +ℤ rem x y ≡ x) × (magnitude (rem x y) < magnitude y)
      ⊎ ((y ≡ pos 0) ⊎ ((x ≡ min_i64) × (y ≡ negsuc 0))) × (div x y ≡ pos 0) × (rem x y ≡ pos 0)
unfolding div rem
div-rem x y = elim (Bool-cases (beq_ℤ y (pos 0))) [
  | inl e ↦ inr (inl (beq_eq y (pos 0) e), rw e refl, rw e refl)
  | inr e ↦ elim (Bool-cases (beq_ℤ x min_i64 && beq_ℤ y (negsuc 0))) [
    | inl f ↦
        let (f1, f2) = both_true (beq_ℤ x min_i64) (beq_ℤ y (negsuc 0)) f in
        inr (inr (beq_eq x min_i64 f1, beq_eq y (negsuc 0) f2), rw (e, f) refl, rw (e, f) refl)
    | inr f ↦ inl (rw (e, f) (quotient-remainder x y, remainder_small x y (positive y e)))
  ]
]

power_positive : (k : ℕ) → 0 < 2 ^ k
power_positive zero = omega arith
power_positive (suc k) = let z = power_positive k in omega arith

times_parts :
    (q : ℤ) (m : ℕ)
    → (pos_part (q *ℤ pos m) ≡ pos_part q * m) × (neg_part (q *ℤ pos m) ≡ neg_part q * m)
unfolding ◌*ℤ◌
times_parts (pos n) m = ground arith
times_parts (negsuc n) m = ground arith

plus_parts :
    (z : ℤ) (k : ℕ) (p : ℕ) (n : ℕ)
    → pos_part z ≡ p
    → neg_part z ≡ n
    → (pos_part (z +ℤ pos k) ≡ p + k - n) × (neg_part (z +ℤ pos k) ≡ n - (p + k))
unfolding ◌+ℤ◌
plus_parts z k p n e f =
    (sub_pos _ _ ∙ rw (e, f) (omega arith), sub_neg _ _ ∙ rw (e, f) (omega arith))

floor_of_parts :
    (q x : ℤ) (m : ℕ)
    → pos_part q * m + neg_part x ≤ pos_part x + neg_part q * m
    → pos_part x + neg_part q * m ≤ pos_part q * m + (m - 1) + neg_part x
    → (q *ℤ pos m ≤ℤ x) × (x ≤ℤ (q *ℤ pos m) +ℤ pos (m - 1))
floor_of_parts q x m lo hi =
    let (e, f) = times_parts q m in
    let (g, h) = plus_parts (q *ℤ pos m) (m - 1) (pos_part q * m) (neg_part q * m) e f in
    (rw (e, f) lo, rw (g, h) (omega arith))

shift_down_floor :
    (x : ℤ) (m : ℕ)
    → 0 < m
    → (shift_down x m *ℤ pos m ≤ℤ x) × (x ≤ℤ (shift_down x m *ℤ pos m) +ℤ pos (m - 1))
shift_down_floor (pos n) m h =
    floor_of_parts (pos (n / m)) (pos n) m
      (let z : n / m * m + 0 ≤ n + 0 * m = omega (arith, div_mod n m, mod-lt n h) in z)
      (let z : n + 0 * m ≤ n / m * m + (m - 1) + 0 = omega (arith, div_mod n m, mod-lt n h) in z)
shift_down_floor (negsuc n) m h =
    floor_of_parts (negsuc (n / m)) (negsuc n) m
      (let z : 0 * m + suc n ≤ 0 + suc (n / m) * m = omega (arith, div_mod n m, mod-lt n h) in z)
      (let z : 0 + suc (n / m) * m ≤ 0 * m + (m - 1) + suc n =
          omega (arith, div_mod n m, mod-lt n h) in
        z)

-- `shr` rounds down, for negative numbers too: shifting back by the masked count does not exceed
-- the number, and is less than a unit of the shift below it.
pub shr_floor :
    (x y : ℤ)
    → (shr x y *ℤ pos (2 ^ shift_count y) ≤ℤ x)
      × (x ≤ℤ (shr x y *ℤ pos (2 ^ shift_count y)) +ℤ pos (2 ^ shift_count y - 1))
unfolding shr
shr_floor x y = shift_down_floor x (2 ^ shift_count y) (power_positive (shift_count y))
