-- ===== src/Heap/Wide.antt =====
-- src/heap.rs: `read_le` and `write_le`, which must be inverse to one another. A shift by `8 * i`
-- is within a `u64` for widths up to 8, and only these are treated here.
use x_engine_rust.Prelude.{
  ℕ, zero, suc, ◌+◌, ◌-◌, ◌*◌, ◌/◌, ◌%◌, ◌^◌, ◌≤◌, ◌<◌, ◌≡◌, refl, ap, ap₂, ◌∙◌, inl, inr, true,
  ◌&&◌, arith, ltb, leb, ◌==◌, if◌then◌else◌, ltb→lt, lt→ltb, ltb_false→le, le→leb, ==_iff,
  Bool-cases,
}
use native.Mathlib.Numerals.{towards_suc}
use native.Mathlib.Nat.{one-le-pow}
use x_engine_rust.Prelude.Bits.{bit_or_fields}
use x_engine_rust.Obj.{IsWord, plus}
use x_engine_rust.Heap.{
  Heap, frontier, byte, set_byte, read_le_loop, read_le, write_le_loop, write_le,
}
use x_engine_rust.Heap.Words.{IsValid}
use x_engine_rust.Heap.Places.{below_eight, bit_and_byte}
use x_engine_rust.Heap.Bytes.{byte-set_byte, byte-lt, set_byte-IsValid, words_len-set_byte}

-- The number whose digits to base 256 are `f i`, `f (i + 1)`, …, the lowest first, from place `i`.
abbrev pub le_sum : (ℕ → ℕ) → ℕ → ℕ → ℕ
le_sum f zero i = 0
le_sum f (suc left) i = f i * 2 ^ (8 * i) + le_sum f left (i + 1)

-- A shift of the first eight rounds is not masked.
pub shift_kept : (i : ℕ) → i < 8 → 8 * i % 64 ≡ 8 * i
shift_kept i h = omega arith

next_place : (i : ℕ) → 2 ^ (8 * (i + 1)) ≡ 256 * 2 ^ (8 * i)
next_place i =
    let e : 8 * (i + 1) ≡ 8 * i + 8 = omega arith in rw e (simp towards_suc (omega arith))

read_le_loop-le_sum :
    (h : Heap) (at left i v : ℕ)
    → v < 2 ^ (8 * i)
    → i + left ≤ 8
    → at + (i + left) ≤ 2 ^ 64
    → read_le_loop h at left i v ≡ v + le_sum (λ k. byte h (at + k)) left i
unfolding read_le_loop
read_le_loop-le_sum h at zero i v fits small room = omega arith
read_le_loop-le_sum h at (suc left) i v fits small room =
    let here : plus at i ≡ at + i = omega arith in
    let p : 0 < 2 ^ (8 * i) = omega (arith, one-le-pow (8 * i) 2) in
    let b : byte h (at + i) < 256 = byte-lt h (at + i) in
    let bound : byte h (at + i) * 2 ^ (8 * i) + v < 2 ^ (8 * (i + 1)) =
      rw (next_place i) (grind arith) in
    rw (here, shift_kept i (omega arith), bit_or_fields (8 * i) (byte h (at + i)) v fits)
      (read_le_loop-le_sum h at left (i + 1) (byte h (at + i) * 2 ^ (8 * i) + v) bound (omega arith)
          (omega arith)
        ∙ omega arith)

-- At a width up to 8 `read_le` answers the bytes as a little-endian number, at a run of addresses
-- that does not wrap.
pub read_le-le_sum :
    (h : Heap) (at n : ℕ)
    → n ≤ 8
    → at + n ≤ 2 ^ 64
    → read_le h at n ≡ le_sum (λ k. byte h (at + k)) n 0
unfolding read_le
read_le-le_sum h at n small room =
    read_le_loop-le_sum h at n 0 0 (omega arith) (omega arith) (omega arith) ∙ omega arith

-- What `write_le` leaves behind from round `i` on.
abbrev written : Heap → ℕ → ℕ → ℕ → ℕ → ℕ → ℕ
written h at v left i b =
    if leb (at + i) b && ltb b (at + (i + left)) then v / 2 ^ (8 * (b - at)) % 256 else byte h b

write_le_loop-written :
    (at v left i : ℕ) {h : Heap}
    → IsValid h
    → i + left ≤ 8
    → at + (i + left) ≤ frontier h
    → (b : ℕ) → IsWord b
    → byte (write_le_loop at v left i h) b ≡ written h at v left i b
unfolding write_le_loop
write_le_loop-written at v zero i ok small room b p = ground arith
write_le_loop-written at v (suc left) i {h} ok small room b p =
    let in_range : at + i < 2 ^ 64 = omega (arith, ok.within, ok.small) in
    let here : plus at i ≡ at + i = omega arith in
    let digit = v / 2 ^ (8 * i) % 256 in
    let g = set_byte h (at + i) digit in
    let ok' : IsValid g = set_byte-IsValid ok (at + i) digit in_range (omega arith) in
    let ih : byte (write_le_loop at v left (i + 1) g) b ≡ written g at v left (i + 1) b =
      write_le_loop-written at v left (i + 1) ok' (omega arith)
        (omega (arith, words_len-set_byte h (at + i) digit)) b p in
    let one : byte g b ≡ (if b == at + i then digit else byte h b) =
      byte-set_byte ok (at + i) b digit in_range p (omega arith) (omega arith) in
    let place_of : (b == at + i) ≡ true → v / 2 ^ (8 * (b - at)) % 256 ≡ digit =
      λ e. ap (λ k. v / 2 ^ (8 * k) % 256) (omega (arith, (==_iff b (at + i)).0 e)) in
    rw (here, shift_kept i (omega arith), bit_and_byte (v / 2 ^ (8 * i)))
      (ih ∙ ground (arith, one, place_of))

-- Over a run inside a valid arena, at a width up to 8, `write_le` puts digit `b - at` of `v` at each address `b` of the
-- `n`, and changes no other byte.
pub byte-write_le :
    {h : Heap}
    → IsValid h
    → (at v n : ℕ) → n ≤ 8
    → at + n ≤ frontier h
    → (b : ℕ) → IsWord b
    → byte (write_le h at v n) b
      ≡ (if leb at b && ltb b (at + n) then v / 2 ^ (8 * (b - at)) % 256 else byte h b)
unfolding write_le
byte-write_le ok at v n small room b p =
    write_le_loop-written at v n 0 ok (omega arith) (omega arith) b p ∙ ground arith

le_sum_ext :
    (f g : ℕ → ℕ) (left i : ℕ)
    → ((k : ℕ) → i ≤ k → k < i + left → f k ≡ g k)
    → le_sum f left i ≡ le_sum g left i
le_sum_ext f g zero i same = refl
le_sum_ext f g (suc left) i same =
    ap₂ ◌+◌ (ap (λ t. t * 2 ^ (8 * i)) (same i (omega arith) (omega arith)))
      (le_sum_ext f g left (i + 1) (λ k a b. same k (omega arith) (omega arith)))

digits_sum :
    (v : ℕ) → IsWord v → (n : ℕ) → n ≤ 8 → le_sum (λ k. v / 2 ^ (8 * k) % 256) n 0 ≡ v % 2 ^ (8 * n)
digits_sum v w n h = elim (Bool-cases (ltb n 8)) [
  | inl e ↦
      below_eight (λ n. le_sum (λ k. v / 2 ^ (8 * k) % 256) n 0 ≡ v % 2 ^ (8 * n)) (omega arith)
        (omega arith) (omega arith) (omega arith) (omega arith) (omega arith) (omega arith)
        (omega arith) n (ltb→lt n 8 e)
  | inr e ↦
      let n8 : n ≡ 8 = omega (arith, ltb_false→le n 8 e) in
      rw n8 (let all : le_sum (λ k. v / 2 ^ (8 * k) % 256) 8 0 ≡ v % 2 ^ 64 = omega arith in all)
]

-- A word written over a run inside a valid arena, at a width up to 8, and read at the same width
-- comes back, cut to the width.
pub read_le-write_le :
    {h : Heap}
    → IsValid h
    → (at v n : ℕ) → IsWord v
    → n ≤ 8
    → at + n ≤ frontier h
    → read_le (write_le h at v n) at n ≡ v % 2 ^ (8 * n)
read_le-write_le {h} ok at v n w small room =
    read_le-le_sum (write_le h at v n) at n small (omega (arith, ok.within, ok.small))
    ∙ le_sum_ext (λ k. byte (write_le h at v n) (at + k)) (λ k. v / 2 ^ (8 * k) % 256) n 0 same
    ∙ digits_sum v w n small
  where
    same : (k : ℕ) → 0 ≤ k → k < 0 + n → byte (write_le h at v n) (at + k) ≡ v / 2 ^ (8 * k) % 256
    same k _ below =
        byte-write_le ok at v n small room (at + k) (omega (arith, ok.within, ok.small))
        ∙ rw (le→leb at (at + k) (omega arith), lt→ltb (at + k) (at + n) (omega arith))
            (ap (λ j. v / 2 ^ (8 * j) % 256) (omega arith))
