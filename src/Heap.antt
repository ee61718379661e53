-- ===== src/Heap.antt =====
-- src/heap.rs: the word arena. A panic of `grow_guard` is `none`; nothing else here can fail.
-- The address that the process maps the arena at comes from the allocator: it is the argument
-- `base` of `from_real` and `address_of`.
pub mod Words
pub mod Places
pub mod Bytes
pub mod Grow
pub mod Wide
pub mod Blocks
pub mod Packing
pub mod Storing
pub mod Text
use x_engine_rust.Prelude.{
  ℕ, zero, suc, ◌+◌, ◌-◌, ◌*◌, ◌/◌, ◌%◌, ◌^◌, ◌≤◌, ◌<◌, bit_and, bit_or, bit_xor, min, max, ◌≡◌,
  refl, sym, ap, ap₂, ◌∙◌, ◌≢◌, ◌↔◌, ◌⊎◌, inl, inr, Bool, true, false, not, ◌&&◌, ◌||◌, Option,
  none, some, List, [], ◌∷◌, ◌++◌, map, reverse, arith, ltb, leb, ◌==◌, if◌then◌else◌, ltb→lt,
  lt→ltb, le→ltb_false, ltb_false→le, ==_iff, ==_refl, ne→==_false, ==_false→ne, Bool-cases,
  Option-cases, length, get_or, set, replicate, length-append, length-set, length-replicate,
  get_or-set_self, get_or-set_ne, get_or-beyond, get_or-append_left, get_or-append_right,
}
use mathlib.Core.Option
use x_engine_rust.Obj.{Addr, Word, bit_not, word_bytes, plus, word_index, byte_in_word, word_base}

abbrev pub pinned_words : ℕ
pinned_words = 2 ^ 30

pub record Heap : Type 0 where
  pub words : List Word
  pub allocations : ℕ
  pub capacity : ℕ

-- `Vec::with_capacity` reserves the count that it is given.
unfoldable pub new : Heap
new = record { words = 0 ∷ []; allocations = 0; capacity = pinned_words }

abbrev pub words_len : Heap → ℕ
words_len h = length h.words

abbrev pub grow_guard : Heap → ℕ → Bool
grow_guard h more = leb (words_len h + more) h.capacity

abbrev pub address_of : ℕ → Addr → ℕ
address_of base at = base + at

unfoldable pub from_real : ℕ → Heap → ℕ → Option Addr
from_real base h real =
    let end = base + words_len h * word_bytes in
    if leb base real && ltb real end then some (real - base) else none

abbrev pub frontier : Heap → Addr
frontier h = words_len h * word_bytes

unfoldable pub word : Heap → Addr → Word
word h at = get_or h.words (word_index at) 0

unfoldable pub set_word : Heap → Addr → Word → Heap
set_word h at v =
    let i = word_index at in if ltb i (words_len h) then record h { words = set h.words i v } else h

unfoldable pub byte : Heap → Addr → ℕ
byte h at = let w = word h (word_base at) in bit_and (w / 2 ^ (8 * byte_in_word at)) 0xff

unfoldable pub set_byte : Heap → Addr → ℕ → Heap
set_byte h at v =
    let base = word_base at in
    let sh = 8 * byte_in_word at in
    let w = bit_and (word h base) (bit_not (0xff * 2 ^ sh)) in
    set_word h base (bit_or w (v * 2 ^ sh))

unfoldable pub note_allocation : Heap → Heap
note_allocation h = record h { allocations = h.allocations + 1 }

-- `self.words.push(v)`, once the guard has passed.
abbrev pub append_word : Heap → Word → Heap
append_word h v = record h { words = h.words ++ v ∷ [] }

unfoldable pub push : Heap → Word → Option Heap
push h v = if grow_guard h 1 then some (append_word h v) else none

-- The loop of `alloc_bytes`, with the count of words to go.
unfoldable pub append_zeros : ℕ → Heap → Heap
append_zeros zero h = h
append_zeros (suc k) h = append_zeros k (append_word h 0)

unfoldable pub alloc_bytes : Heap → ℕ → Option (Addr × Heap)
alloc_bytes h n =
    if grow_guard h (n / word_bytes + 2)
    then some (frontier h, append_zeros (max ((n + (word_bytes - 1)) / word_bytes) 1) h)
    else none

-- Round `i` of `read_le`, with `left` rounds to go. The count of a shift of a `u64` is taken modulo
-- 64, as in a release build; a debug build panics at a count of 64, which no width up to 8 reaches.
unfoldable pub read_le_loop : Heap → Addr → ℕ → ℕ → ℕ → ℕ
read_le_loop h at zero i v = v
read_le_loop h at (suc left) i v =
    read_le_loop h at left (i + 1) (bit_or v (byte h (plus at i) * 2 ^ (8 * i % 64)))

unfoldable pub read_le : Heap → Addr → ℕ → ℕ
unfolding read_le_loop
read_le h at width = read_le_loop h at width 0 0

unfoldable pub write_le_loop : Addr → ℕ → ℕ → ℕ → Heap → Heap
write_le_loop at v zero i h = h
write_le_loop at v (suc left) i h =
    write_le_loop at v left (i + 1) (set_byte h (plus at i) (bit_and (v / 2 ^ (8 * i % 64)) 0xff))

unfoldable pub write_le : Heap → Addr → ℕ → ℕ → Heap
unfolding write_le_loop
write_le h at v width = write_le_loop at v width 0 h

unfoldable pub copy_loop : Addr → Addr → ℕ → ℕ → Heap → Heap
copy_loop dst src zero i h = h
copy_loop dst src (suc left) i h =
    copy_loop dst src left (i + 1) (set_byte h (plus dst i) (byte h (plus src i)))

unfoldable pub copy_bytes : Heap → Addr → Addr → ℕ → Heap
unfolding copy_loop
copy_bytes h dst src n = copy_loop dst src n 0 h

unfoldable pub fill_loop : Addr → ℕ → ℕ → ℕ → Heap → Heap
fill_loop dst v zero i h = h
fill_loop dst v (suc left) i h = fill_loop dst v left (i + 1) (set_byte h (plus dst i) v)

unfoldable pub fill_bytes : Heap → Addr → ℕ → ℕ → Heap
unfolding fill_loop
fill_bytes h dst v n = fill_loop dst v n 0 h

-- The loop of `store_bytes`: `w` holds the `n` bytes that are not yet a whole word.
unfoldable pub store_loop : List ℕ → ℕ → ℕ → Heap → Heap
store_loop [] w n h = if ltb 0 n then append_word h w else h
store_loop (c ∷ bytes) w n h =
    let w' = bit_or w (c * 2 ^ (8 * n)) in
    let whole = n + 1 == word_bytes in
    store_loop bytes (if whole then 0 else w') (if whole then 0 else n + 1)
      (if whole then append_word h w' else h)

unfoldable pub store_bytes : Heap → List ℕ → Option (Addr × Heap)
unfolding store_loop
store_bytes h bytes =
    if grow_guard h (length bytes / word_bytes + 2)
    then some (frontier h, store_loop (bytes ++ 0 ∷ []) 0 0 h)
    else none

-- The loop of `bytes_at` from offset `i`, on fuel; `none` means that the fuel ran out.
unfoldable pub bytes_loop : Heap → Addr → ℕ → ℕ → Option (List ℕ)
bytes_loop h at zero i = none
bytes_loop h at (suc fuel) i =
    let c = byte h (plus at i) in
    let rest = bytes_loop h at fuel (i + 1) in
    if c == 0 then some [] else Option.map (λ out. c ∷ out) rest

-- Reads past the arena answer 0, so the loop ends within its length in bytes.
unfoldable pub bytes_at : Heap → Addr → Option (List ℕ)
unfolding bytes_loop
bytes_at h at = bytes_loop h at (words_len h * word_bytes + 1) 0
