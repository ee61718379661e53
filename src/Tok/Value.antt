-- ===== src/Tok/Value.antt =====
-- src/prims/tok.rs: the value of a decimal token.
use x_engine_rust.Prelude.{
  ℕ, suc, ◌+◌, ◌-◌, ◌*◌, ◌%◌, ◌^◌, ◌<◌, ◌≡◌, refl, sym, ap, ◌∙◌, Bool, true, false, ◌&&◌, ◌||◌,
  Option, none, some, List, [], ◌∷◌, arith, ltb, ◌==◌, if◌then◌else◌, lt→ltb, ne→==_false,
}
use x_engine_rust.Prelude.Int.{ℤ, pos, negsuc, sub_ℕ, ◌+ℤ◌, ◌*ℤ◌}
use x_engine_rust.Obj.{as_i64, from_i64}
use x_engine_rust.Obj.Laws.{from_i64-as_i64, from_i64-IsWord}
use x_engine_rust.Num.{wrap, wrapping_add, wrapping_mul}
use x_engine_rust.Objects.FreeList.{All}
use x_engine_rust.Tok.{hex_digit, fold_digits, body_value, token_value}

from_i64-wrap : (x : ℤ) → from_i64 (wrap x) ≡ from_i64 x
unfolding wrap
from_i64-wrap x = from_i64-as_i64 (from_i64 x) (from_i64-IsWord x)

from_i64-sub_ℕ : (a b : ℕ) → from_i64 (sub_ℕ a b) ≡ (a % 2 ^ 64 + (2 ^ 64 - b % 2 ^ 64)) % 2 ^ 64
unfolding from_i64
from_i64-sub_ℕ a b = ground arith

times_ten : (x : ℤ) → from_i64 (x *ℤ pos 10) ≡ from_i64 x * 10 % 2 ^ 64
unfolding ◌*ℤ◌
times_ten (pos n) =
    from_i64-sub_ℕ (n * 10 + 0 * 0) (n * 0 + 0 * 10) ∙ unfold from_i64 in omega arith
times_ten (negsuc n) =
    from_i64-sub_ℕ (0 * 10 + suc n * 0) (0 * 0 + suc n * 10) ∙ unfold from_i64 in omega arith

plus_digit : (x : ℤ) (d : ℕ) → from_i64 (x +ℤ pos d) ≡ (from_i64 x + d) % 2 ^ 64
unfolding ◌+ℤ◌
plus_digit (pos n) d = from_i64-sub_ℕ (n + d) (0 + 0) ∙ unfold from_i64 in omega arith
plus_digit (negsuc n) d = from_i64-sub_ℕ (0 + d) (suc n + 0) ∙ unfold from_i64 in omega arith

digit_step :
    (x : ℤ) (d : ℕ)
    → from_i64 (wrapping_add (wrapping_mul x (pos 10)) (pos d)) ≡ (from_i64 x * 10 + d) % 2 ^ 64
unfolding wrapping_add wrapping_mul
digit_step x d =
    from_i64-wrap _
    ∙ plus_digit (wrap (x *ℤ pos 10)) d
    ∙ ap (λ z. (z + d) % 2 ^ 64) (from_i64-wrap (x *ℤ pos 10) ∙ times_ten x)
    ∙ omega arith

-- The number that decimal digits write, behind the digits of `n`.
abbrev pub decimal : ℕ → List ℕ → ℕ
decimal n [] = n
decimal n (d ∷ ds) = decimal (n * 10 + d) ds

-- The characters of digits.
abbrev pub digit_chars : List ℕ → List ℕ
digit_chars [] = []
digit_chars (d ∷ ds) = (0x30 + d) ∷ digit_chars ds

abbrev pub IsDigit : ℕ → Type 0
IsDigit d = d < 10

hex_digit-IsDigit : (d : ℕ) → IsDigit d → hex_digit (0x30 + d) ≡ some d
unfolding hex_digit
hex_digit-IsDigit d h = ground arith

decimal_congruent :
    (ds : List ℕ) (a b : ℕ)
    → a % 2 ^ 64 ≡ b % 2 ^ 64
    → decimal a ds % 2 ^ 64 ≡ decimal b ds % 2 ^ 64
decimal_congruent [] a b e = e
decimal_congruent (d ∷ ds) a b e = decimal_congruent ds (a * 10 + d) (b * 10 + d) (omega arith)

-- One digit of the fold.
fold_step :
    (acc : ℤ) (d : ℕ) (cs : List ℕ)
    → IsDigit d
    → fold_digits 10 acc ((0x30 + d) ∷ cs)
      ≡ fold_digits 10 (wrapping_add (wrapping_mul acc (pos 10)) (pos d)) cs
fold_step acc d cs h =
    unfold fold_digits in ap branch (hex_digit-IsDigit d h) ∙ rw (lt→ltb d 10 h) refl
  where
    branch : Option ℕ → ℤ
    branch o = elim o [
      | none ↦ acc
      | some d ↦
          let more = fold_digits 10 (wrapping_add (wrapping_mul acc (pos 10)) (pos d)) cs in
          if ltb d 10 then more else acc
    ]

fold_digits-decimal :
    (ds : List ℕ)
    → All IsDigit ds
    → (acc : ℤ)
    → from_i64 (fold_digits 10 acc (digit_chars ds)) ≡ decimal (from_i64 acc) ds % 2 ^ 64
fold_digits-decimal [] a acc =
    unfold fold_digits in
    (let small = from_i64-IsWord acc in
      let z : from_i64 acc ≡ from_i64 acc % 2 ^ 64 = omega arith in z)
fold_digits-decimal (d ∷ ds) (h, a) acc =
    ap from_i64 (fold_step acc d (digit_chars ds) h)
    ∙ fold_digits-decimal ds a (wrapping_add (wrapping_mul acc (pos 10)) (pos d))
    ∙ decimal_congruent ds _ _ (ap (λ z. z % 2 ^ 64) (digit_step acc d) ∙ omega arith)

-- An integer that is an `i64`.
abbrev Fits : ℤ → Type 0
Fits x = as_i64 (from_i64 x) ≡ x

wrap-Fits : (x : ℤ) → Fits (wrap x)
unfolding wrap
wrap-Fits x = ap as_i64 (from_i64-as_i64 (from_i64 x) (from_i64-IsWord x))

fold_digits-Fits :
    (ds : List ℕ)
    → All IsDigit ds
    → (acc : ℤ) → Fits acc
    → Fits (fold_digits 10 acc (digit_chars ds))
fold_digits-Fits [] a acc f = unfold fold_digits in f
fold_digits-Fits (d ∷ ds) (h, a) acc f =
    let w = wrapping_mul acc (pos 10) in
    let step : Fits (wrapping_add w (pos d)) = unfold wrapping_add in wrap-Fits (w +ℤ pos d) in
    let z = fold_digits-Fits ds a (wrapping_add w (pos d)) step in
    rw (fold_step acc d (digit_chars ds) h) z

body_value-digits :
    (ds : List ℕ)
    → All IsDigit ds
    → body_value (digit_chars ds) ≡ fold_digits 10 (pos 0) (digit_chars ds)
unfolding body_value
body_value-digits [] a = refl
body_value-digits (d ∷ []) a = refl
body_value-digits (d ∷ e ∷ ds) (h, (i, a)) =
    rw
      (
        ne→==_false (0x30 + e) 0x78 (λ z. omega arith),
        ne→==_false (0x30 + e) 0x58 (λ z. omega arith),
      )
      (if_neither _ (0x30 + d == 0x30))
  where
    if_neither : (x : ℤ) {y : ℤ} (b : Bool) → (if b && (false || false) then x else y) ≡ y
    if_neither x true = refl
    if_neither x false = refl

token_value-digits :
    (d : ℕ) (ds : List ℕ)
    → IsDigit d
    → token_value (digit_chars (d ∷ ds)) ≡ body_value (digit_chars (d ∷ ds))
unfolding token_value
token_value-digits d ds h =
    rw
      (
        ne→==_false (0x30 + d) 0x2d (λ z. omega arith),
        ne→==_false (0x30 + d) 0x2b (λ z. omega arith),
      )
      refl

-- A token of decimal digits, at least one and of a number below 2 ^ 63, has that number as its
-- value; leading zeros are allowed.
pub token_value-decimal :
    (d : ℕ) (ds : List ℕ)
    → All IsDigit (d ∷ ds)
    → decimal 0 (d ∷ ds) < 2 ^ 63
    → token_value (digit_chars (d ∷ ds)) ≡ pos (decimal 0 (d ∷ ds))
token_value-decimal d ds a small =
    let all = d ∷ ds in
    let n = decimal 0 all in
    let word = fold_digits-decimal all a (pos 0) in
    let fits = fold_digits-Fits all a (pos 0) (unfold from_i64 as_i64 in refl) in
    token_value-digits d ds a.0
    ∙ body_value-digits all a
    ∙ sym fits
    ∙ ap as_i64 (word ∙ ap (λ z. decimal z all % 2 ^ 64) zero_word ∙ cut n small)
    ∙ as_pos n small
  where
    zero_word : from_i64 (pos 0) ≡ 0
    zero_word = unfold from_i64 in refl

    cut : (n : ℕ) → n < 2 ^ 63 → n % 2 ^ 64 ≡ n
    cut n h = omega arith

    as_pos : (n : ℕ) → n < 2 ^ 63 → as_i64 n ≡ pos n
    as_pos n h = unfold as_i64 in rw (lt→ltb n (2 ^ 63) h) refl
