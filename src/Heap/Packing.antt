-- ===== src/Heap/Packing.antt =====
-- src/heap.rs: the partly filled word of `store_bytes`, whose waiting bytes lie at its low places.
use x_engine_rust.Prelude.{ℕ, ◌+◌, ◌*◌, ◌^◌, ◌<◌, ◌≡◌, arith, ltb, ◌==◌, if◌then◌else◌}
use x_engine_rust.Heap.Places.{place, below_eight}

-- The places of a partly filled word with one more byte put above it.
abbrev pub Packed : ℕ → ℕ → Type 0
Packed n j =
    (w c : ℕ)
    → w < 2 ^ (8 * n)
    → c < 256
    → place (c * 2 ^ (8 * n) + w) j ≡ (if ltb j n then place w j else if j == n then c else 0)

pub packed : (n : ℕ) → n < 8 → (j : ℕ) → j < 8 → Packed n j
packed = below_eight (λ n. (j : ℕ) → j < 8 → Packed n j) row0 row1 row2 row3 row4 row5 row6 row7
  where
    row0 : (j : ℕ) → j < 8 → Packed 0 j
    row0 =
        below_eight (Packed 0) (λ w c p q. omega arith) (λ w c p q. omega arith)
          (λ w c p q. omega arith) (λ w c p q. omega arith) (λ w c p q. omega arith)
          (λ w c p q. omega arith) (λ w c p q. omega arith) (λ w c p q. omega arith)

    row1 : (j : ℕ) → j < 8 → Packed 1 j
    row1 =
        below_eight (Packed 1) (λ w c p q. omega arith) (λ w c p q. omega arith)
          (λ w c p q. omega arith) (λ w c p q. omega arith) (λ w c p q. omega arith)
          (λ w c p q. omega arith) (λ w c p q. omega arith) (λ w c p q. omega arith)

    row2 : (j : ℕ) → j < 8 → Packed 2 j
    row2 =
        below_eight (Packed 2) (λ w c p q. omega arith) (λ w c p q. omega arith)
          (λ w c p q. omega arith) (λ w c p q. omega arith) (λ w c p q. omega arith)
          (λ w c p q. omega arith) (λ w c p q. omega arith) (λ w c p q. omega arith)

    row3 : (j : ℕ) → j < 8 → Packed 3 j
    row3 =
        below_eight (Packed 3) (λ w c p q. omega arith) (λ w c p q. omega arith)
          (λ w c p q. omega arith) (λ w c p q. omega arith) (λ w c p q. omega arith)
          (λ w c p q. omega arith) (λ w c p q. omega arith) (λ w c p q. omega arith)

    row4 : (j : ℕ) → j < 8 → Packed 4 j
    row4 =
        below_eight (Packed 4) (λ w c p q. omega arith) (λ w c p q. omega arith)
          (λ w c p q. omega arith) (λ w c p q. omega arith) (λ w c p q. omega arith)
          (λ w c p q. omega arith) (λ w c p q. omega arith) (λ w c p q. omega arith)

    row5 : (j : ℕ) → j < 8 → Packed 5 j
    row5 =
        below_eight (Packed 5) (λ w c p q. omega arith) (λ w c p q. omega arith)
          (λ w c p q. omega arith) (λ w c p q. omega arith) (λ w c p q. omega arith)
          (λ w c p q. omega arith) (λ w c p q. omega arith) (λ w c p q. omega arith)

    row6 : (j : ℕ) → j < 8 → Packed 6 j
    row6 =
        below_eight (Packed 6) (λ w c p q. omega arith) (λ w c p q. omega arith)
          (λ w c p q. omega arith) (λ w c p q. omega arith) (λ w c p q. omega arith)
          (λ w c p q. omega arith) (λ w c p q. omega arith) (λ w c p q. omega arith)

    row7 : (j : ℕ) → j < 8 → Packed 7 j
    row7 =
        below_eight (Packed 7) (λ w c p q. omega arith) (λ w c p q. omega arith)
          (λ w c p q. omega arith) (λ w c p q. omega arith) (λ w c p q. omega arith)
          (λ w c p q. omega arith) (λ w c p q. omega arith) (λ w c p q. omega arith)

pub packed-lt :
    (n : ℕ)
    → n < 7
    → (w c : ℕ) → w < 2 ^ (8 * n)
    → c < 256
    → c * 2 ^ (8 * n) + w < 2 ^ (8 * (n + 1))
packed-lt n h =
    below_eight
      (λ n. (w c : ℕ) → w < 2 ^ (8 * n) → c < 256 → c * 2 ^ (8 * n) + w < 2 ^ (8 * (n + 1)))
      (λ w c p q. omega arith) (λ w c p q. omega arith) (λ w c p q. omega arith)
      (λ w c p q. omega arith) (λ w c p q. omega arith) (λ w c p q. omega arith)
      (λ w c p q. omega arith) (λ w c p q. omega arith) n (omega arith)

pub partial-lt : (n : ℕ) → n < 8 → (w : ℕ) → w < 2 ^ (8 * n) → w < 2 ^ 56
partial-lt =
    below_eight (λ n. (w : ℕ) → w < 2 ^ (8 * n) → w < 2 ^ 56) (λ w p. omega arith)
      (λ w p. omega arith) (λ w p. omega arith) (λ w p. omega arith) (λ w p. omega arith)
      (λ w p. omega arith) (λ w p. omega arith) (λ w p. omega arith)
