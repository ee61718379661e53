-- ===== src/Num.antt =====
-- src/prims/num.rs: the operators of the raw integer instructions, on `i64` values. The rows
-- that read the operand words and box the result are in Engine.Operators and Engine.Tables.
pub mod Division
use x_engine_rust.Prelude.{
  ℕ, zero, suc, ◌+◌, ◌-◌, ◌*◌, ◌/◌, ◌%◌, ◌^◌, bit_and, bit_or, bit_xor, Bool, ◌&&◌, Option, none,
  some, ltb, leb, ◌==◌, if◌then◌else◌,
}
use x_engine_rust.Prelude.Int.{
  ℤ, pos, negsuc, sub_ℕ, ◌+ℤ◌, ◌-ℤ◌, ◌*ℤ◌, pos_part, neg_part, ltb_ℤ, beq_ℤ,
}
use x_engine_rust.Obj.{as_i64, from_i64, bit_not}

abbrev pub min_i64 : ℤ
min_i64 = negsuc (2 ^ 63 - 1)

-- An integer cut to an `i64` by two's complement wrap-around.
unfoldable pub wrap : ℤ → ℤ
unfolding as_i64 from_i64
wrap x = as_i64 (from_i64 x)

unfoldable pub wrapping_add : ℤ → ℤ → ℤ
unfolding wrap ◌+ℤ◌
wrapping_add x y = wrap (x +ℤ y)

unfoldable pub wrapping_sub : ℤ → ℤ → ℤ
unfolding wrap ◌-ℤ◌
wrapping_sub x y = wrap (x -ℤ y)

unfoldable pub wrapping_mul : ℤ → ℤ → ℤ
unfolding wrap ◌*ℤ◌
wrapping_mul x y = wrap (x *ℤ y)

unfoldable pub wrapping_neg : ℤ → ℤ
unfolding wrapping_sub
wrapping_neg x = wrapping_sub (pos 0) x

-- The count of a shift, masked to the word.
abbrev pub shift_count : ℤ → ℕ
shift_count y = bit_and (from_i64 y) 63

unfoldable pub shl : ℤ → ℤ → ℤ
unfolding as_i64 from_i64
shl x y = as_i64 (from_i64 x * 2 ^ shift_count y % 2 ^ 64)

-- `>>` on an `i64` rounds down.
abbrev pub shift_down : ℤ → ℕ → ℤ
shift_down (pos n) m = pos (n / m)
shift_down (negsuc n) m = negsuc (n / m)

unfoldable pub shr : ℤ → ℤ → ℤ
unfolding from_i64
shr x y = shift_down x (2 ^ shift_count y)

abbrev pub magnitude : ℤ → ℕ
magnitude (pos b) = b
magnitude (negsuc b) = suc b

-- The quotient and the remainder of `/` and `%`, rounded to zero, of a divisor that is not zero.
abbrev pub quotient : ℤ → ℤ → ℤ
quotient (pos a) (pos b) = pos (a / b)
quotient (pos a) (negsuc b) = sub_ℕ 0 (a / suc b)
quotient (negsuc a) (pos b) = sub_ℕ 0 (suc a / b)
quotient (negsuc a) (negsuc b) = pos (suc a / suc b)

abbrev pub remainder : ℤ → ℤ → ℤ
remainder (pos a) y = pos (a % magnitude y)
remainder (negsuc a) y = sub_ℕ 0 (suc a % magnitude y)

-- `checked_div` and `checked_rem` fail at a divisor of zero and at `i64::MIN / -1`.
abbrev pub checked : (ℤ → ℤ → ℤ) → ℤ → ℤ → Option ℤ
checked f x y =
    if beq_ℤ y (pos 0)
    then none
    else if beq_ℤ x min_i64 && beq_ℤ y (negsuc 0)
    then none
    else some (f x y)

abbrev unwrap_or_zero : Option ℤ → ℤ
unwrap_or_zero none = pos 0
unwrap_or_zero (some x) = x

unfoldable pub div : ℤ → ℤ → ℤ
div x y = unwrap_or_zero (checked quotient x y)

unfoldable pub rem : ℤ → ℤ → ℤ
rem x y = unwrap_or_zero (checked remainder x y)

unfoldable pub int_and : ℤ → ℤ → ℤ
unfolding as_i64 from_i64
int_and x y = as_i64 (bit_and (from_i64 x) (from_i64 y))

unfoldable pub int_or : ℤ → ℤ → ℤ
unfolding as_i64 from_i64
int_or x y = as_i64 (bit_or (from_i64 x) (from_i64 y))

unfoldable pub int_xor : ℤ → ℤ → ℤ
unfolding as_i64 from_i64
int_xor x y = as_i64 (bit_xor (from_i64 x) (from_i64 y))

unfoldable pub int_not : ℤ → ℤ
unfolding as_i64 from_i64
int_not x = as_i64 (bit_not (from_i64 x))
