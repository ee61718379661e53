-- ===== src/Pointer.antt =====
-- src/prims/ptr.rs: reads and writes at an operand address, which is an offset into the arena or
-- an address of the process. The memory of the process is a parameter: a state with a read and a
-- write of one byte. The functions stand behind the boxing of operands and results.
pub mod Wide
use x_engine_rust.Prelude.{
  ℕ, zero, suc, ◌+◌, ◌-◌, ◌*◌, ◌/◌, ◌%◌, ◌^◌, ◌≤◌, ◌<◌, bit_and, bit_or, bit_xor, min, max, ◌≡◌,
  refl, sym, ap, ap₂, ◌∙◌, ◌≢◌, ◌↔◌, ◌⊎◌, inl, inr, Bool, true, false, not, ◌&&◌, ◌||◌, Option,
  none, some, List, [], ◌∷◌, ◌++◌, map, reverse, arith, ltb, leb, ◌==◌, if◌then◌else◌, ◌>>=◌,
  ltb→lt, lt→ltb, le→ltb_false, ltb_false→le, le→leb, ==_iff, ==_refl, ne→==_false, ==_false→ne,
  Bool-cases, Option-cases, length, get_or, set, replicate, length-append, length-set,
  length-replicate, get_or-set_self, get_or-set_ne, get_or-beyond, get_or-append_left,
  get_or-append_right,
}
use x_engine_rust.Prelude.Int.{ℤ, pos, negsuc, pos_part}
use x_engine_rust.Obj.{
  Obj, Addr, Word, Flags, EnvId, IsWord, bit_not, word_bytes, nil, is_nil, as_i64, from_i64, offset,
  plus, word_index, byte_in_word, word_base,
}
use x_engine_rust.Heap.{Heap, words_len, byte, set_byte}

-- `clamp(0, 8)` of a width.
abbrev pub clamp_width : ℤ → ℕ
clamp_width w = min (pos_part w) 8

-- `max(0)` of a count.
abbrev pub count : ℤ → ℕ
count n = pos_part n

unfoldable pub in_arena : Heap → ℕ → Bool
in_arena h at = ltb at (words_len h * word_bytes)

module _ (Memory : Type 0) (read_byte : Memory → ℕ → ℕ) (write_byte : Memory → ℕ → ℕ → Memory) where
  unfoldable pub rd_byte : Heap → Memory → ℕ → ℕ
  unfolding in_arena byte
  rd_byte h m at = if in_arena h at then byte h at else read_byte m at

  unfoldable pub wr_byte : Heap → Memory → ℕ → ℕ → Heap × Memory
  unfolding in_arena set_byte
  wr_byte h m at v = if in_arena h at then (set_byte h at v, m) else (h, write_byte m at v)

  -- The loop of `ptr_ref` from byte `i` on, with the value so far; a width is at most 8, so that
  -- the shift loses no bit.
  unfoldable pub ref_loop : ℕ → Heap → Memory → ℕ → ℕ → ℕ → ℕ
  unfolding rd_byte
  ref_loop zero h m at i v = v
  ref_loop (suc left) h m at i v =
      ref_loop left h m at (i + 1) (bit_or v (rd_byte h m (plus at i) * 2 ^ (8 * i)))

  unfoldable pub ptr_ref : Heap → Memory → Addr → ℤ → ℤ → Word
  unfolding ref_loop offset
  ptr_ref h m base off width = ref_loop (clamp_width width) h m (offset base off) 0 0

  -- The loop of `ptr_set` from byte `i` on.
  unfoldable pub set_loop : ℕ → ℕ → Word → ℕ → Heap → Memory → Heap × Memory
  unfolding wr_byte
  set_loop zero at v i h m = (h, m)
  set_loop (suc left) at v i h m =
      let next = wr_byte h m (plus at i) (bit_and (v / 2 ^ (8 * i)) 0xff) in
      set_loop left at v (i + 1) next.0 next.1

  unfoldable pub ptr_set : Heap → Memory → Addr → ℤ → Word → ℤ → Heap × Memory
  unfolding set_loop offset
  ptr_set h m base off v width = set_loop (clamp_width width) (offset base off) v 0 h m

  -- The loop of `mem_cmp`: -1, 0 or 1 at the first byte that differs.
  unfoldable pub cmp_loop : ℕ → Heap → Memory → ℕ → ℕ → ℕ → ℤ
  unfolding rd_byte
  cmp_loop zero h m a b i = pos 0
  cmp_loop (suc left) h m a b i =
      let x = rd_byte h m (plus a i) in
      let y = rd_byte h m (plus b i) in
      let more = cmp_loop left h m a b (i + 1) in
      if x == y then more else if ltb x y then negsuc 0 else pos 1

  unfoldable pub mem_cmp : Heap → Memory → Addr → Addr → ℤ → ℤ
  unfolding cmp_loop
  mem_cmp h m a b n = cmp_loop (count n) h m a b 0

  -- The loop of `mem_copy`, byte by byte upwards.
  unfoldable pub move_loop : ℕ → ℕ → ℕ → ℕ → Heap → Memory → Heap × Memory
  unfolding rd_byte wr_byte
  move_loop zero dst src i h m = (h, m)
  move_loop (suc left) dst src i h m =
      let next = wr_byte h m (plus dst i) (rd_byte h m (plus src i)) in
      move_loop left dst src (i + 1) next.0 next.1

  unfoldable pub mem_copy : Heap → Memory → Addr → Addr → ℤ → Heap × Memory
  unfolding move_loop
  mem_copy h m dst src n = move_loop (count n) dst src 0 h m

  -- The loop of `mem_set`.
  unfoldable pub wipe_loop : ℕ → ℕ → ℕ → ℕ → Heap → Memory → Heap × Memory
  unfolding wr_byte
  wipe_loop zero dst v i h m = (h, m)
  wipe_loop (suc left) dst v i h m =
      let next = wr_byte h m (plus dst i) v in wipe_loop left dst v (i + 1) next.0 next.1

  unfoldable pub mem_set : Heap → Memory → Addr → ℤ → ℤ → Heap × Memory
  unfolding wipe_loop from_i64
  mem_set h m dst v n = wipe_loop (count n) dst (from_i64 v % 2 ^ 8) 0 h m
