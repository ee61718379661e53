-- ===== src/Heap/Places.antt =====
-- src/heap.rs: the eight byte places of a word, and the masked assignment to one of them.
use x_engine_rust.Prelude.{
  ℕ, zero, suc, ◌+◌, ◌-◌, ◌*◌, ◌/◌, ◌%◌, ◌^◌, ◌<◌, bit_and, bit_or, ◌≡◌, refl, ap, ap₂, ◌∙◌, arith,
  ◌==◌, if◌then◌else◌,
}
use x_engine_rust.Prelude.Bits.{
  bit_and_block, bit_or_block, bit_and-zero, bit_or-zero, zero-bit_or, bit_and_ones, bit_and_mask,
}
use x_engine_rust.Obj.{IsWord, bit_not}

-- A property of the eight places in a word, place by place.
pub below_eight :
    (P : ℕ → Type 0) → P 0 → P 1 → P 2 → P 3 → P 4 → P 5 → P 6 → P 7 → (i : ℕ) → i < 8 → P i
below_eight P p0 p1 p2 p3 p4 p5 p6 p7 zero h = p0
below_eight P p0 p1 p2 p3 p4 p5 p6 p7 (suc zero) h = p1
below_eight P p0 p1 p2 p3 p4 p5 p6 p7 (suc (suc zero)) h = p2
below_eight P p0 p1 p2 p3 p4 p5 p6 p7 (suc (suc (suc zero))) h = p3
below_eight P p0 p1 p2 p3 p4 p5 p6 p7 (suc (suc (suc (suc zero)))) h = p4
below_eight P p0 p1 p2 p3 p4 p5 p6 p7 (suc (suc (suc (suc (suc zero))))) h = p5
below_eight P p0 p1 p2 p3 p4 p5 p6 p7 (suc (suc (suc (suc (suc (suc zero)))))) h = p6
below_eight P p0 p1 p2 p3 p4 p5 p6 p7 (suc (suc (suc (suc (suc (suc (suc zero))))))) h = p7
below_eight P p0 p1 p2 p3 p4 p5 p6 p7 (suc (suc (suc (suc (suc (suc (suc (suc i)))))))) h =
    absurd (omega arith)

-- The byte at place `i` of a word.
abbrev pub place : ℕ → ℕ → ℕ
place w i = w / 2 ^ (8 * i) % 256

-- The word with `v` put at place `i`, as `set_byte` computes it.
abbrev pub put : ℕ → ℕ → ℕ → ℕ
put w i v = bit_or (bit_and w (bit_not (0xff * 2 ^ (8 * i)))) (v * 2 ^ (8 * i))

pub bit_and_byte : (w : ℕ) → bit_and w 0xff ≡ w % 256
bit_and_byte w =
    let split : w ≡ w / 256 * 2 ^ 8 + w % 256 = omega arith in
    ap (λ t. bit_and t 0xff) split ∙ bit_and_mask 8 (w / 256) (w % 256) (omega arith)

put_fields :
    (sh k q o r v : ℕ)
    → r < 2 ^ sh
    → 0 < 2 ^ sh
    → o < 256
    → q < 2 ^ k
    → v < 256
    → bit_not (0xff * 2 ^ sh) ≡ ((2 ^ k - 1) * 2 ^ 8 + 0) * 2 ^ sh + (2 ^ sh - 1)
    → bit_or (bit_and ((q * 2 ^ 8 + o) * 2 ^ sh + r) (bit_not (0xff * 2 ^ sh))) (v * 2 ^ sh)
      ≡ (q * 2 ^ 8 + v) * 2 ^ sh + r
put_fields sh k q o r v hr hp ho hq hv mask =
    let cleared : bit_and ((q * 2 ^ 8 + o) * 2 ^ sh + r) (bit_not (0xff * 2 ^ sh))
        ≡ (q * 2 ^ 8 + 0) * 2 ^ sh + r =
      ap (bit_and ((q * 2 ^ 8 + o) * 2 ^ sh + r)) mask
      ∙ bit_and_block sh (q * 2 ^ 8 + o) ((2 ^ k - 1) * 2 ^ 8 + 0) r (2 ^ sh - 1) hr (omega arith)
      ∙ rw
          (
            bit_and_block 8 q (2 ^ k - 1) o 0 ho (omega arith),
            bit_and_ones k q hq,
            bit_and-zero o,
            bit_and_ones sh r hr,
          )
          refl in
    let shifted : v * 2 ^ sh ≡ (0 * 2 ^ 8 + v) * 2 ^ sh + 0 =
      rw (let z : 0 * 2 ^ 8 + v ≡ v = omega arith in z) (omega arith) in
    ap₂ bit_or cleared shifted
    ∙ bit_or_block sh (q * 2 ^ 8 + 0) (0 * 2 ^ 8 + v) r 0 hr hp
    ∙ rw (bit_or_block 8 q 0 0 v (omega arith) hv, bit_or-zero q, zero-bit_or v, bit_or-zero r) refl

-- `put` without the bit operations.
PutSum : ℕ → ℕ → ℕ → Type 0
PutSum w v i = put w i v ≡ (w / 2 ^ (8 * i) / 256 * 2 ^ 8 + v) * 2 ^ (8 * i) + w % 2 ^ (8 * i)

put_sum : (w v : ℕ) → IsWord w → v < 256 → (i : ℕ) → i < 8 → PutSum w v i
unfolding PutSum
put_sum w v hw hv =
    below_eight (PutSum w v) (at 0 56 (omega arith) (omega arith) (omega arith) refl)
      (at 8 48 (omega arith) (omega arith) (omega arith) refl)
      (at 16 40 (omega arith) (omega arith) (omega arith) refl)
      (at 24 32 (omega arith) (omega arith) (omega arith) refl)
      (at 32 24 (omega arith) (omega arith) (omega arith) refl)
      (at 40 16 (omega arith) (omega arith) (omega arith) refl)
      (at 48 8 (omega arith) (omega arith) (omega arith) refl)
      (at 56 0 (omega arith) (omega arith) (omega arith) refl)
  where
    at :
        (sh k : ℕ)
        → w % 2 ^ sh < 2 ^ sh
        → w / 2 ^ sh / 256 < 2 ^ k
        → w ≡ (w / 2 ^ sh / 256 * 2 ^ 8 + w / 2 ^ sh % 256) * 2 ^ sh + w % 2 ^ sh
        → bit_not (0xff * 2 ^ sh) ≡ ((2 ^ k - 1) * 2 ^ 8 + 0) * 2 ^ sh + (2 ^ sh - 1)
        → bit_or (bit_and w (bit_not (0xff * 2 ^ sh))) (v * 2 ^ sh)
          ≡ (w / 2 ^ sh / 256 * 2 ^ 8 + v) * 2 ^ sh + w % 2 ^ sh
    at sh k low high split mask =
        ap (λ t. bit_or (bit_and t (bit_not (0xff * 2 ^ sh))) (v * 2 ^ sh)) split
        ∙ put_fields sh k (w / 2 ^ sh / 256) (w / 2 ^ sh % 256) (w % 2 ^ sh) v low (omega arith)
            (omega arith) high hv mask

-- Reading place `j` after the assignment to place `i`.
abbrev Field : ℕ → ℕ → ℕ → ℕ → Type 0
Field w v i j =
    ((w / 2 ^ (8 * i) / 256 * 2 ^ 8 + v) * 2 ^ (8 * i) + w % 2 ^ (8 * i)) / 2 ^ (8 * j) % 256
    ≡ (if j == i then v else place w j)

fields : (w v : ℕ) → v < 256 → (i : ℕ) → i < 8 → (j : ℕ) → j < 8 → Field w v i j
fields w v hv =
    below_eight (λ i. (j : ℕ) → j < 8 → Field w v i j)
      (below_eight (Field w v 0) (omega arith) (omega arith) (omega arith) (omega arith)
        (omega arith) (omega arith) (omega arith) (omega arith))
      (below_eight (Field w v 1) (omega arith) (omega arith) (omega arith) (omega arith)
        (omega arith) (omega arith) (omega arith) (omega arith))
      (below_eight (Field w v 2) (omega arith) (omega arith) (omega arith) (omega arith)
        (omega arith) (omega arith) (omega arith) (omega arith))
      (below_eight (Field w v 3) (omega arith) (omega arith) (omega arith) (omega arith)
        (omega arith) (omega arith) (omega arith) (omega arith))
      (below_eight (Field w v 4) (omega arith) (omega arith) (omega arith) (omega arith)
        (omega arith) (omega arith) (omega arith) (omega arith))
      (below_eight (Field w v 5) (omega arith) (omega arith) (omega arith) (omega arith)
        (omega arith) (omega arith) (omega arith) (omega arith))
      (below_eight (Field w v 6) (omega arith) (omega arith) (omega arith) (omega arith)
        (omega arith) (omega arith) (omega arith) (omega arith))
      (below_eight (Field w v 7) (omega arith) (omega arith) (omega arith) (omega arith)
        (omega arith) (omega arith) (omega arith) (omega arith))

pub place-put :
    (w v : ℕ)
    → IsWord w
    → v < 256
    → (i : ℕ) → i < 8
    → (j : ℕ) → j < 8
    → place (put w i v) j ≡ (if j == i then v else place w j)
unfolding PutSum
place-put w v hw hv i hi j hj =
    ap (λ t. t / 2 ^ (8 * j) % 256) (put_sum w v hw hv i hi) ∙ fields w v hv i hi j hj

bounded_sums :
    (w v : ℕ)
    → IsWord w
    → v < 256
    → (i : ℕ) → i < 8
    → (w / 2 ^ (8 * i) / 256 * 2 ^ 8 + v) * 2 ^ (8 * i) + w % 2 ^ (8 * i) < 2 ^ 64
bounded_sums w v hw hv =
    below_eight (λ i. (w / 2 ^ (8 * i) / 256 * 2 ^ 8 + v) * 2 ^ (8 * i) + w % 2 ^ (8 * i) < 2 ^ 64)
      (omega arith) (omega arith) (omega arith) (omega arith) (omega arith) (omega arith)
      (omega arith) (omega arith)

pub put-IsWord : (w v : ℕ) → IsWord w → v < 256 → (i : ℕ) → i < 8 → IsWord (put w i v)
unfolding PutSum
put-IsWord w v hw hv i hi = rw (put_sum w v hw hv i hi) (bounded_sums w v hw hv i hi)

pub place-lt : (w i : ℕ) → place w i < 256
place-lt w i = omega arith
