-- ===== src/Pointer/Wide.antt =====
-- src/prims/ptr.rs: inside the arena the pointer instructions are the wide accesses of the arena.
use x_engine_rust.Prelude.{
  ℕ, zero, suc, ◌+◌, ◌*◌, ◌/◌, ◌%◌, ◌^◌, ◌≤◌, ◌<◌, bit_and, ◌≡◌, refl, ap, ◌∙◌, true, arith, lt→ltb,
}
use x_engine_rust.Prelude.Int.{ℤ}
use x_engine_rust.Obj.{Addr, Word, IsWord, word_bytes, offset, plus}
use x_engine_rust.Heap.{
  Heap, words_len, frontier, set_byte, read_le_loop, read_le, write_le_loop, write_le,
}
use x_engine_rust.Heap.Words.{IsValid}
use x_engine_rust.Heap.Bytes.{words_len-set_byte}
use x_engine_rust.Heap.Wide.{shift_kept, read_le-write_le}
use x_engine_rust.Pointer.{
  clamp_width, in_arena, rd_byte, wr_byte, ref_loop, ptr_ref, set_loop, ptr_set,
}

inside_lem :
    (h : Heap) (at i : ℕ)
    → at + i < frontier h
    → frontier h ≤ 2 ^ 43
    → in_arena h (plus at i) ≡ true
unfolding in_arena
inside_lem h at i a small = lt→ltb (plus at i) (words_len h * word_bytes) (omega arith)

module _ (Memory : Type 0) (read_byte : Memory → ℕ → ℕ) (write_byte : Memory → ℕ → ℕ → Memory) where
  ref_loop-read_le_loop :
      (left i v at : ℕ) (h : Heap) (m : Memory)
      → i + left ≤ 8
      → at + (i + left) ≤ frontier h
      → frontier h ≤ 2 ^ 43
      → ref_loop Memory read_byte write_byte left h m at i v ≡ read_le_loop h at left i v
  unfolding ref_loop read_le_loop rd_byte
  ref_loop-read_le_loop zero i v at h m low room small = refl
  ref_loop-read_le_loop (suc left) i v at h m low room small =
      rw (inside_lem h at i (omega arith) small, shift_kept i (omega arith))
        (ref_loop-read_le_loop left (i + 1) _ at h m (omega arith) (omega arith) small)

  set_loop-write_le_loop :
      (left i v at : ℕ) (h : Heap) (m : Memory)
      → i + left ≤ 8
      → at + (i + left) ≤ frontier h
      → frontier h ≤ 2 ^ 43
      → set_loop Memory read_byte write_byte left at v i h m ≡ (write_le_loop at v left i h, m)
  unfolding set_loop write_le_loop wr_byte
  set_loop-write_le_loop zero i v at h m low room small = refl
  set_loop-write_le_loop (suc left) i v at h m low room small =
      let len = words_len-set_byte h (plus at i) (bit_and (v / 2 ^ (8 * i)) 0xff) in
      rw (inside_lem h at i (omega arith) small, shift_kept i (omega arith))
        (set_loop-write_le_loop left (i + 1) v at
          (set_byte h (plus at i) (bit_and (v / 2 ^ (8 * i)) 0xff)) m (omega arith)
          (omega (arith, len)) (omega (arith, len)))

words_len-write_le_loop :
    (left i v at : ℕ) (h : Heap) → words_len (write_le_loop at v left i h) ≡ words_len h
unfolding write_le_loop
words_len-write_le_loop zero i v at h = refl
words_len-write_le_loop (suc left) i v at h =
    words_len-write_le_loop left (i + 1) v at
      (set_byte h (plus at i) (bit_and (v / 2 ^ (8 * i % 64)) 0xff))
    ∙ words_len-set_byte h (plus at i) (bit_and (v / 2 ^ (8 * i % 64)) 0xff)

frontier_bound : {h : Heap} → IsValid h → frontier h ≤ 2 ^ 43
frontier_bound ok = omega (arith, ok.within, ok.small)

clamp_small : (w : ℤ) → clamp_width w ≤ 8
clamp_small w = omega arith

-- On a run inside a valid arena `ptr_set` is the little-endian write of the arena, at the width
-- clamped to 8, and leaves the memory of the process as it is; `ptr_ref` at the same operands then
-- answers the value, cut to the width.
pub ptr_ref-ptr_set :
    (Memory : Type 0) (read_byte : Memory → ℕ → ℕ) (write_byte : Memory → ℕ → ℕ → Memory) {h : Heap}
    → IsValid h
    → (m : Memory) (base : Addr) (off : ℤ) (v : Word) (width : ℤ) → IsWord v
    → offset base off + clamp_width width ≤ frontier h
    → (ptr_set Memory read_byte write_byte h m base off v width
        ≡ (write_le h (offset base off) v (clamp_width width), m))
      × (ptr_ref Memory read_byte write_byte
            (ptr_set Memory read_byte write_byte h m base off v width).0
            m
            base
            off
            width
          ≡ v % 2 ^ (8 * clamp_width width))
unfolding ptr_ref write_le
ptr_ref-ptr_set M r w {h} ok m base off v width word room =
    let at = offset base off in
    let n = clamp_width width in
    let stored = set_all M r w ok m base off v width room in
    let len = words_len-write_le_loop n 0 v at h in
    (
      stored,
      ap (λ z. ref_loop M r w n (z.0) m at 0 0) stored
          ∙ ref_loop-read_le_loop M r w n 0 0 at (write_le h at v n) m
              (omega (arith, clamp_small width)) (omega (arith, len))
              (omega (arith, len, frontier_bound ok))
          ∙ (unfold read_le in read_le-write_le ok at v n word (clamp_small width) room),
    )
  where
    set_all :
        (M : Type 0) (r : M → ℕ → ℕ) (w : M → ℕ → ℕ → M) {h : Heap}
        → IsValid h
        → (m : M) (base : Addr) (off : ℤ) (v : Word) (width : ℤ)
        → offset base off + clamp_width width ≤ frontier h
        → ptr_set M r w h m base off v width
          ≡ (write_le h (offset base off) v (clamp_width width), m)
    set_all M r w {h} ok m base off v width room =
        unfold ptr_set in
        set_loop-write_le_loop M r w (clamp_width width) 0 v (offset base off) h m
          (omega (arith, clamp_small width)) (omega arith) (frontier_bound ok)
