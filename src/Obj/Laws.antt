-- ===== src/Obj/Laws.antt =====
-- src/obj.rs: the crossing between `i64` and words, and the split of an address.
use x_engine_rust.Prelude.{suc, ℕ, ◌+◌, ◌-◌, ◌*◌, ◌/◌, ◌%◌, ◌^◌, ◌≡◌, ap₂, ◌∙◌, arith, bit_and}
use x_engine_rust.Prelude.Int.{ℤ, pos, negsuc, ◌≤ℤ◌}
use x_engine_rust.Prelude.Bits.{bit_and_block, bit_and-zero, bit_and_ones}
use x_engine_rust.Obj.{
  Word, Addr, IsWord, bit_not, word_bytes, as_i64, from_i64, offset, word_index, word_base,
}

-- Reading a word as an `i64` and storing it again gives the same word.
pub from_i64-as_i64 : (w : Word) → IsWord w → from_i64 (as_i64 w) ≡ w
unfolding from_i64 as_i64
from_i64-as_i64 w h = ground arith

-- An integer in the range of `i64` survives the word.
pub as_i64-from_i64 :
    (v : ℤ) → negsuc (2 ^ 63 - 1) ≤ℤ v → v ≤ℤ pos (2 ^ 63 - 1) → as_i64 (from_i64 v) ≡ v
unfolding from_i64 as_i64
as_i64-from_i64 (pos n) lo hi = ground arith
as_i64-from_i64 (negsuc n) lo hi = ground arith

pub from_i64-IsWord : (v : ℤ) → IsWord (from_i64 v)
unfolding from_i64
from_i64-IsWord (pos n) = omega arith
from_i64-IsWord (negsuc n) = omega arith

-- A move by `bytes` and back by the same count returns to the address, through any wrap.
pub offset_back : (a : Addr) (n : ℕ) → IsWord a → offset (offset a (pos (suc n))) (negsuc n) ≡ a
unfolding offset
offset_back a n h = omega arith

-- The mask that `word_base` applies to an address gives the address of the word that `word_index`
-- names.
pub word_base_lem : (a : Addr) → IsWord a → word_base a ≡ word_index a * word_bytes
unfolding word_base
word_base_lem a h =
    let split : a ≡ a / 8 * 2 ^ 3 + a % 8 = omega arith in
    let mask : bit_not (word_bytes - 1) ≡ (2 ^ 61 - 1) * 2 ^ 3 + 0 = omega arith in
    ap₂ bit_and split mask
    ∙ bit_and_block 3 (a / 8) (2 ^ 61 - 1) (a % 8) 0 (omega arith) (omega arith)
    ∙ rw (bit_and-zero (a % 8), bit_and_ones 61 (a / 8) (omega arith)) (omega arith)
