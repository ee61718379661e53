-- ===== src/Tests/Arena.antt =====
-- Bytes of a concrete arena.
use x_engine_rust.Prelude.{
  ℕ, ◌+◌, ◌-◌, ◌*◌, ◌/◌, ◌%◌, ◌^◌, ◌<◌, ◌≡◌, ◌≢◌, inl, ◌&&◌, some, List, [], ◌∷◌, arith, ltb, leb,
  ◌==◌, if◌then◌else◌,
}
use x_engine_rust.Obj.{nil}
use x_engine_rust.Heap.{
  Heap, frontier, byte, set_byte, alloc_bytes, read_le, write_le, copy_bytes, fill_bytes,
  store_bytes, bytes_at,
}
use x_engine_rust.Heap.Words.{IsValid}
use x_engine_rust.Heap.Bytes.{byte-set_byte}
use x_engine_rust.Heap.Wide.{byte-write_le, read_le-write_le, read_le-le_sum, le_sum}
use x_engine_rust.Heap.Blocks.{within_run, byte-fill_bytes, byte-copy_bytes}
use x_engine_rust.Heap.Grow.{IsFresh, alloc_bytes-IsFresh}
use x_engine_rust.Heap.Text.{until_nul, bytes_at_total, bytes_at-store_bytes}
use x_engine_rust.Tests.{four_words, four_words-IsValid}

byte-set_byte_example :
    byte (set_byte four_words 10 0xab) 11 ≡ (if 11 == 10 then 0xab else byte four_words 11)
byte-set_byte_example =
    byte-set_byte four_words-IsValid 10 11 0xab (omega arith) (omega arith) (omega arith)
      (omega arith)

byte-write_le_example : byte (write_le four_words 13 0xbeef 4) 14 ≡ (
    if leb 13 14 && ltb 14 (13 + 4) then 0xbeef / 2 ^ (8 * (14 - 13)) % 256 else byte four_words 14)
byte-write_le_example =
    byte-write_le four_words-IsValid 13 0xbeef 4 (omega arith) (omega arith) 14 (omega arith)

read_le-write_le_example : read_le (write_le four_words 13 0x123456 2) 13 2 ≡ 0x123456 % 2 ^ (8 * 2)
read_le-write_le_example =
    read_le-write_le four_words-IsValid 13 0x123456 2 (omega arith) (omega arith) (omega arith)

read_le-le_sum_example : read_le four_words 8 3 ≡ le_sum (λ k. byte four_words (8 + k)) 3 0
read_le-le_sum_example = read_le-le_sum four_words 8 3 (omega arith) (omega arith)

byte-fill_bytes_example :
    byte (fill_bytes four_words 9 0x20 5) 12
    ≡ (if within_run 9 5 12 then 0x20 else byte four_words 12)
byte-fill_bytes_example =
    byte-fill_bytes four_words-IsValid 9 0x20 5 (omega arith) (omega arith) 12 (omega arith)

byte-copy_bytes_example :
    byte (copy_bytes four_words 9 11 6) 10
    ≡ (if within_run 9 6 10 then byte four_words (11 + (10 - 9)) else byte four_words 10)
byte-copy_bytes_example =
    byte-copy_bytes four_words-IsValid 9 11 6 (inl (omega arith)) (omega arith) (omega arith) 10
      (omega arith)

alloc_bytes-IsFresh_example :
    (g : Heap) × (alloc_bytes four_words 10 ≡ some (frontier four_words, g))
    × IsFresh four_words 10 (frontier four_words) g
alloc_bytes-IsFresh_example = alloc_bytes-IsFresh four_words-IsValid 10 (omega arith)

bytes_at_total_example : (out : List ℕ) × (bytes_at four_words 8 ≡ some out)
bytes_at_total_example = bytes_at_total four_words-IsValid 8 (omega arith)

abbrev letters : List ℕ
letters = 0x61 ∷ 0x62 ∷ 0 ∷ 0x63 ∷ []

bytes_at-store_bytes_example :
    (g : Heap) × (store_bytes four_words letters ≡ some (frontier four_words, g))
    × (frontier four_words ≢ nil)
    × IsValid g
    × ((b : ℕ) → b < frontier four_words → byte g b ≡ byte four_words b)
    × (bytes_at g (frontier four_words) ≡ some (until_nul letters))
bytes_at-store_bytes_example =
    bytes_at-store_bytes four_words-IsValid letters
      (omega arith, (omega arith, (omega arith, (omega arith, tt)))) (omega arith)
