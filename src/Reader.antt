-- ===== src/Reader.antt =====
-- src/read.rs: the built-in reader over a buffer. The state is the store with the input stream of
-- the engine, a type and a function that pulls a byte from it. Every loop is on fuel, and `none`
-- means that it ran out or that the arena is exhausted; an end of input is the `none` inside.
pub mod Literals
pub mod Forms
pub mod Ahead
pub mod Blanks
use x_engine_rust.Prelude.{
  ℕ, zero, suc, ◌+◌, ◌-◌, ◌*◌, ◌/◌, ◌%◌, ◌^◌, ◌≤◌, ◌<◌, bit_and, bit_or, bit_xor, min, max, ◌≡◌,
  refl, sym, ap, ap₂, ◌∙◌, ◌≢◌, ◌↔◌, ◌⊎◌, inl, inr, Bool, true, false, not, ◌&&◌, ◌||◌, Option,
  none, some, List, [], ◌∷◌, ◌++◌, map, reverse, arith, ltb, leb, ◌==◌, if◌then◌else◌, ◌>>=◌,
  ltb→lt, lt→ltb, le→ltb_false, ltb_false→le, le→leb, ==_iff, ==_refl, ne→==_false, ==_false→ne,
  Bool-cases, Option-cases, length, get_or, set, replicate, length-append, length-set,
  length-replicate, get_or-set_self, get_or-set_ne, get_or-beyond, get_or-append_left,
  get_or-append_right,
}
use x_engine_rust.Obj.{
  Obj, Addr, Word, Flags, EnvId, IsWord, bit_not, word_bytes, nil, is_nil, as_i64, from_i64, offset,
  plus, word_index, byte_in_word, word_base,
}
use x_engine_rust.Heap.{byte, set_byte}
use x_engine_rust.Objects.{
  Objects, FreeList, bucket, set_bucket, with_heap, header_slot, flags_word, set_flags_word,
  kind_bits, flags, is, type_of_word, set_type_word, slot, data_word, set_data, data_len,
  chain_next, set_chain_next, first, rest, meta_stamped, meta_slot, meta_i, set_meta_i, stamp_meta,
  meta_extra, free_key, take_free, write_header, meta_bits, clear_data, reuse, push_zeros, grow,
  lay_out, count_alloc, slot_heap, slot_type, slot_flags, slot_len, meta_len, flag_meta_bit,
  flag_meta_shift, flag_magic_bit,
}
use x_engine_rust.Value.{as_int}
use x_engine_rust.Prelude.Int.{ℤ, pos, ltb_ℤ}
use x_engine_rust.Base.{get}
use x_engine_rust.Buffer.{compact_loop}
use x_engine_rust.Tok.{is_blank, hex_digit}
use x_engine_rust.Value.Buffer.{
  set_buf_retain, buf_cursor, set_buf_cursor, buf_write, set_buf_write, buf_ro, buf_text, str_bytes,
  buf_slice, buf_line_shift, buf_bump,
}

abbrev pub filein : ℕ
filein = 17

-- `input` is `None` until a stream is installed, and `input_cap` is the size of its region.
pub record Reader (I : Type 0) : Type 0 where
  pub objects : Objects
  pub input : Option I
  pub input_cap : ℕ

abbrev pub with_objects : {I : Type 0} → Reader I → Objects → Reader I
with_objects r s = record r { objects = s }

-- The full region with its unread bytes moved to the front, unless nothing was read.
unfoldable pub make_room : ℕ → Objects → Obj → Option Objects
unfolding buf_write buf_cursor compact_loop str_bytes buf_text set_buf_retain set_buf_cursor
    buf_line_shift set_buf_write
make_room cap s b =
    let w = buf_write s b in
    let c = buf_cursor s b in
    let s1 = compact_loop s (str_bytes s (buf_text s b)) c (w - c) 0 in
    let s2 = buf_line_shift (set_buf_cursor (set_buf_retain s1 b 0) b 0) b c in
    if ltb w cap then some s else if c == 0 then none else some (set_buf_write s2 b (w - c))

unfoldable pub put_byte : Objects → Obj → ℕ → Objects
unfolding buf_write set_byte str_bytes buf_text set_buf_write
put_byte s b c =
    let w = buf_write s b in
    set_buf_write (with_heap s (set_byte s.heap (plus (str_bytes s (buf_text s b)) w) c)) b (w + 1)

-- Whether the latch of the current base is open.
unfoldable pub latch_open : Objects → Bool
unfolding get first as_int
latch_open s =
    let row = get s s.base filein in
    let fd = first s row in
    not (is_nil s.base) && not (is_nil row) && not (is_nil fd) && not (ltb_ℤ (as_int s fd) (pos 0))

-- Whether the stream may be read.
unfoldable pub source_open : Objects → Obj → Bool
unfolding buf_ro
source_open s b = if buf_ro s b then false else latch_open s

-- The end of input flips the descriptor to its complement.
unfoldable pub latch : Objects → Objects
unfolding get first as_int from_i64 set_data
latch s =
    let fd = first s (get s s.base filein) in set_data s fd 0 (bit_not (from_i64 (as_int s fd)))

module _ {I : Type 0} (pull : I → Option ℕ × I) where
  -- A byte of the stream, if it may be read.
  unfoldable pub refill_from : Bool → Reader I → Obj → Bool × Reader I
  unfolding latch make_room put_byte
  refill_from false r b = (false, r)
  refill_from true r b = elim r.input [
    | none ↦ (false, r)
    | some input ↦
        let (got, input1) = pull input in
        let r1 : Reader I = record r { input = some input1 } in
        elim got [
          | none ↦ (false, with_objects r1 (latch r1.objects))
          | some c ↦ elim (make_room r1.input_cap r1.objects b) [
            | none ↦ (false, r1)
            | some s ↦ (true, with_objects r1 (put_byte s b c))
          ]
        ]
  ]

  unfoldable pub buf_refill : Reader I → Obj → Bool × Reader I
  unfolding source_open refill_from
  buf_refill r b = refill_from (source_open r.objects b) r b

  unfoldable pub buf_byte_ahead : ℕ → Reader I → Obj → ℕ → Option (Option ℕ × Reader I)
  unfolding buf_cursor buf_write byte str_bytes buf_text buf_refill
  buf_byte_ahead zero r b n = none
  buf_byte_ahead (suc fuel) r b n =
      let s = r.objects in
      let i = buf_cursor s b + n in
      let (more, r1) = buf_refill r b in
      let later = buf_byte_ahead fuel r1 b n in
      if ltb i (buf_write s b)
      then some (some (byte s.heap (plus (str_bytes s (buf_text s b)) i)), r)
      else if more
      then later
      else some (none, r1)

  unfoldable pub buf_peek : ℕ → Reader I → Obj → Option (Option ℕ × Reader I)
  unfolding buf_byte_ahead
  buf_peek fuel r b = buf_byte_ahead fuel r b 0

  abbrev pub bump : Reader I → Obj → Reader I
  bump r b = with_objects r (buf_bump r.objects b)

  unfoldable pub buf_next_byte : ℕ → Reader I → Obj → Option (Option ℕ × Reader I)
  unfolding buf_peek
  buf_next_byte fuel r b = do
    (c, r1) ← buf_peek fuel r b
    elim c [ none ↦ some (none, r1) | some x ↦ some (some x, bump r1 b) ]

  -- The rest of a comment, with its newline.
  unfoldable pub skip_comment : ℕ → Reader I → Obj → Option (Reader I)
  unfolding buf_next_byte
  skip_comment zero r b = none
  skip_comment (suc fuel) r b = do
    (c, r1) ← buf_next_byte fuel r b
    elim c [
      | none ↦ some r1
      | some x ↦ let more = skip_comment fuel r1 b in if x == 10 then some r1 else more
    ]

  unfoldable pub buf_skip_blanks : ℕ → Reader I → Obj → Option (Reader I)
  unfolding buf_peek is_blank skip_comment
  buf_skip_blanks zero r b = none
  buf_skip_blanks (suc fuel) r b = do
    (c, r1) ← buf_peek fuel r b
    elim c [
      | none ↦ some r1
      | some x ↦
          let more = buf_skip_blanks fuel (bump r1 b) b in
          let after = skip_comment fuel r1 b >>= (λ r2. buf_skip_blanks fuel r2 b) in
          if is_blank x then more else if x == 59 then after else some r1
    ]

  -- Whether a newline is among `left` bytes from `i` on.
  unfoldable pub has_newline : Objects → Addr → ℕ → ℕ → Bool
  unfolding byte
  has_newline s at zero i = false
  has_newline s at (suc left) i = byte s.heap (plus at i) == 10 || has_newline s at left (i + 1)

  unfoldable pub prefetch_loop : ℕ → Reader I → Obj → Option (Reader I)
  unfolding buf_cursor buf_write has_newline str_bytes buf_text buf_refill
  prefetch_loop zero r b = none
  prefetch_loop (suc fuel) r b =
      let s = r.objects in
      let c = buf_cursor s b in
      elim (has_newline s (str_bytes s (buf_text s b)) (buf_write s b - c) c) [
        | true ↦ some r
        | false ↦
            let (more, r1) = buf_refill r b in
            elim more [ true ↦ prefetch_loop fuel r1 b | false ↦ some r1 ]
      ]

  unfoldable pub buf_prefetch_line : ℕ → Reader I → Obj → Option (Reader I)
  unfolding buf_ro prefetch_loop
  buf_prefetch_line fuel r b = elim (buf_ro r.objects b) [
    | true ↦ some r
    | false ↦ prefetch_loop fuel r b
  ]

  -- Bytes are consumed while they pass a test.
  unfoldable pub take_while : ℕ → (ℕ → Bool) → Reader I → Obj → Option (Reader I)
  unfolding buf_peek
  take_while zero p r b = none
  take_while (suc fuel) p r b = do
    (c, r1) ← buf_peek fuel r b
    elim c [
      | none ↦ some r1
      | some x ↦ let more = take_while fuel p (bump r1 b) b in if p x then more else some r1
    ]
