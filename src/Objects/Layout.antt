-- ===== src/Objects/Layout.antt =====
-- src/objects.rs: the stored flags word. Kind bits, the meta bit, the magic bit and the count of
-- meta words in the high byte do not disturb one another.
use x_engine_rust.Prelude.{
  ℕ, ◌+◌, ◌-◌, ◌*◌, ◌/◌, ◌%◌, ◌^◌, ◌≤◌, ◌<◌, bit_and, bit_or, ◌≡◌, refl, ap, ap₂, ◌∙◌, ◌⊎◌, inl,
  inr, arith, ltb, if◌then◌else◌, ltb_false→le, Bool-cases,
}
use x_engine_rust.Prelude.Bits.{
  bit_and_block, bit_or_block, bit_or_fields, bit_or-zero, zero-bit_or, bit_and_ones, bit_and_mask,
}
use x_engine_rust.Obj.{Flags, IsWord, bit_not}
use x_engine_rust.Objects.{kind_bits, meta_bits, flag_meta_bit, flag_magic_bit}

-- A kind leaves the meta bit and the high byte free.
pub record IsKind (f : Flags) : Type 0 where
  pub low : f % 256 < 128
  pub high : f < 2 ^ 56

abbrev pub stored_flags : Flags → ℕ → ℕ
stored_flags f extra = bit_or (bit_or f flag_magic_bit) (meta_bits extra)

-- The stored word as a sum: `m` is the low seven bits' partner, the meta bit.
meta_bits_sum :
    (extra : ℕ) → extra ≤ 16 → meta_bits extra ≡ extra * 2 ^ 56 + (if ltb 0 extra then 128 else 0)
meta_bits_sum extra small = elim (Bool-cases (ltb 0 extra)) [
  | inl e ↦
      let cut : extra * 2 ^ 56 % 2 ^ 64 ≡ extra * 2 ^ 56 = omega arith in
      rw (e, cut) (bit_or_fields 56 extra 128 (omega arith))
  | inr e ↦ rw e (omega (arith, ltb_false→le 0 extra e))
]

or_128 : (f : ℕ) → f % 256 < 128 → bit_or f 128 ≡ f + 128
or_128 f low =
    let split : f ≡ f / 256 * 2 ^ 8 + f % 256 = omega arith in
    let one : bit_or (f % 256) (1 * 2 ^ 7) ≡ 1 * 2 ^ 7 + f % 256 =
      bit_or_fields 7 1 (f % 256) low in
    ap (λ t. bit_or t (0 * 2 ^ 8 + 128)) split
    ∙ bit_or_block 8 (f / 256) 0 (f % 256) 128 (omega arith) (omega arith)
    ∙ rw (bit_or-zero (f / 256), one) (omega arith)

or_meta : (f m : ℕ) → f % 256 < 128 → (m ≡ 0) ⊎ (m ≡ 128) → bit_or f m ≡ f + m
or_meta f m low (inl e) = rw (e, bit_or-zero f) (omega arith)
or_meta f m low (inr e) = rw e (or_128 f low)

high_or : (extra : ℕ) → extra ≤ 16 → bit_or 64 extra ≡ 64 + extra
high_or extra small =
    let right : extra ≡ 0 * 2 ^ 6 + extra = omega arith in
    ap (bit_or (1 * 2 ^ 6 + 0)) right
    ∙ bit_or_block 6 1 0 0 extra (omega arith) (omega arith)
    ∙ rw (zero-bit_or extra) (omega arith)

-- The parts of a stored flags word, as fields of the word.
pub stored_flags_sum :
    (f extra m : ℕ)
    → IsKind f
    → extra ≤ 16
    → m ≡ (if ltb 0 extra then 128 else 0)
    → (m ≡ 0) ⊎ (m ≡ 128)
    → stored_flags f extra ≡ (64 + extra) * 2 ^ 56 + (f + m)
stored_flags_sum f extra m k small e cases =
    let magic : bit_or f flag_magic_bit ≡ 64 * 2 ^ 56 + f =
      bit_or_fields 62 1 f (omega (arith, k.high)) ∙ omega arith in
    rw (magic, meta_bits_sum extra small, ← e)
      (bit_or_block 56 64 extra f m k.high
          (elim cases [ inl z ↦ omega arith | inr z ↦ omega arith ])
        ∙ rw (high_or extra small, or_meta f m k.low cases))

kind_of_sum :
    (top f m : ℕ)
    → top < 256
    → IsKind f
    → (m ≡ 0) ⊎ (m ≡ 128)
    → kind_bits (top * 2 ^ 56 + (f + m)) ≡ f
kind_of_sum top f m t k cases =
    let cleared : bit_and (top * 2 ^ 56 + (f + m)) (bit_not flag_meta_bit) ≡ top * 2 ^ 56 + f =
      ap₂ bit_and split mask
      ∙ bit_and_block 56 top 255 (f / 256 * 2 ^ 8 + (m + f % 256)) ((2 ^ 48 - 1) * 2 ^ 8 + 127)
          (by_case (λ z. f / 256 * 2 ^ 8 + (z + f % 256) < 2 ^ 56) (omega (arith, k.high))
            (omega (arith, k.high, k.low)))
          (omega arith)
      ∙ rw
          (
            bit_and_ones 8 top t,
            bit_and_block 8 (f / 256) (2 ^ 48 - 1) (m + f % 256) 127
                (by_case (λ z. z + f % 256 < 2 ^ 8) (omega arith) (omega (arith, k.low)))
                (omega arith),
            bit_and_ones 48 (f / 256) (omega (arith, k.high)),
            low,
          )
          (omega arith) in
    rw cleared (bit_and_mask 56 top f k.high)
  where
    by_case : (P : ℕ → Type 0) → P 0 → P 128 → P m
    by_case P a b = elim cases [ inl z ↦ rw z a | inr z ↦ rw z b ]

    split : top * 2 ^ 56 + (f + m) ≡ top * 2 ^ 56 + (f / 256 * 2 ^ 8 + (m + f % 256))
    split = omega arith

    mask : bit_not flag_meta_bit ≡ 255 * 2 ^ 56 + ((2 ^ 48 - 1) * 2 ^ 8 + 127)
    mask = refl

    low : bit_and (m + f % 256) 127 ≡ f % 256
    low = elim cases [
      | inl z ↦ rw z (ap (λ t. bit_and t 127) (omega arith) ∙ bit_and_ones 7 (f % 256) k.low)
      | inr z ↦ rw z (bit_and_mask 7 1 (f % 256) k.low)
    ]

-- Masking the stored flags word gives back the kind, for up to 16 meta words and a kind that
-- leaves the meta bit and the top byte free.
pub kind_bits-stored_flags :
    (f extra : ℕ) → IsKind f → extra ≤ 16 → kind_bits (stored_flags f extra) ≡ f
kind_bits-stored_flags f extra k small = elim (Bool-cases (ltb 0 extra)) [
  | inl e ↦
      ap kind_bits (stored_flags_sum f extra 128 k small (rw e) (inr refl))
      ∙ kind_of_sum (64 + extra) f 128 (omega arith) k (inr refl)
  | inr e ↦
      ap kind_bits (stored_flags_sum f extra 0 k small (rw e) (inl refl))
      ∙ kind_of_sum (64 + extra) f 0 (omega arith) k (inl refl)
]

pub stored_flags-IsWord : (f extra : ℕ) → IsKind f → extra ≤ 16 → IsWord (stored_flags f extra)
stored_flags-IsWord f extra k small = elim (Bool-cases (ltb 0 extra)) [
  | inl e ↦
      rw (stored_flags_sum f extra 128 k small (rw e) (inr refl)) (omega (arith, k.high, k.low))
  | inr e ↦ rw (stored_flags_sum f extra 0 k small (rw e) (inl refl)) (omega (arith, k.high))
]
