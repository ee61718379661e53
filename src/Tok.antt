-- ===== src/Tok.antt =====
-- src/prims/tok.rs and src/read.rs: the integer analyser's states, the value of its token, the
-- comparison of the analyse contest, and the character tests of the reader.
pub mod Value
use x_engine_rust.Prelude.{
  ℕ, zero, suc, ◌+◌, ◌-◌, ◌*◌, ◌/◌, ◌%◌, ◌^◌, ◌≤◌, ◌<◌, bit_and, bit_or, bit_xor, min, max, ◌≡◌,
  refl, sym, ap, ap₂, ◌∙◌, ◌≢◌, ◌↔◌, ◌⊎◌, inl, inr, Bool, true, false, not, ◌&&◌, ◌||◌, Option,
  none, some, List, [], ◌∷◌, ◌++◌, map, reverse, arith, ltb, leb, ◌==◌, if◌then◌else◌, ◌>>=◌,
  ltb→lt, lt→ltb, le→ltb_false, ltb_false→le, le→leb, ==_iff, ==_refl, ne→==_false, ==_false→ne,
  Bool-cases, Option-cases, length, get_or, set, replicate, length-append, length-set,
  length-replicate, get_or-set_self, get_or-set_ne, get_or-beyond, get_or-append_left,
  get_or-append_right,
}
use x_engine_rust.Prelude.Int.{ℤ, pos, negsuc, ◌≤ℤ◌, pos_part, neg_part, ltb_ℤ}
use x_engine_rust.Obj.{
  Obj, Addr, Word, Flags, EnvId, IsWord, bit_not, word_bytes, nil, is_nil, as_i64, from_i64, offset,
  plus, word_index, byte_in_word, word_base,
}
use x_engine_rust.Objects.{
  Objects, FreeList, bucket, set_bucket, with_heap, header_slot, flags_word, set_flags_word,
  kind_bits, flags, is, type_of_word, set_type_word, slot, data_word, set_data, data_len,
  chain_next, set_chain_next, first, rest, meta_stamped, meta_slot, meta_i, set_meta_i, stamp_meta,
  meta_extra, free_key, take_free, write_header, meta_bits, clear_data, reuse, push_zeros, grow,
  lay_out, count_alloc, slot_heap, slot_type, slot_flags, slot_len, meta_len, flag_meta_bit,
  flag_meta_shift, flag_magic_bit,
}
use x_engine_rust.Num.{wrapping_add, wrapping_mul}
use x_engine_rust.Value.{as_char}
use x_engine_rust.Value.Buffer.{buf_retain, buf_cursor, set_buf_cursor, buf_write, buf_text}
use x_engine_rust.Value.Text.{bytes_of}

-- `int_states[…]`: sign, prefix, base, digits, xdigits.
abbrev pub int_state : Objects → ℕ → Obj
int_state s k = get_or s.int_states k nil

abbrev pub within : ℕ → ℕ → ℕ → Bool
within lo hi c = leb lo c && leb c hi

abbrev pub is_ascii_digit : ℕ → Bool
is_ascii_digit c = within 0x30 0x39 c

unfoldable pub is_blank : ℕ → Bool
is_blank c = c == 0 || c == 32 || c == 9 || c == 10 || c == 12 || c == 13

unfoldable pub hex_digit : ℕ → Option ℕ
hex_digit b =
    if within 0x30 0x39 b
    then some (b - 0x30)
    else if within 0x61 0x66 b
    then some (b - 0x61 + 10)
    else if within 0x41 0x46 b
    then some (b - 0x41 + 10)
    else none

-- Whether a score beats the best so far.
unfoldable pub better : ℤ → Option ℤ → Bool
better score none = true
better score (some b) = not (ltb_ℤ score b) || (ltb_ℤ b (pos 1) && not (ltb_ℤ b score))

unfoldable pub buf_span : Objects → Obj → ℕ
unfolding buf_cursor buf_retain
buf_span s b = buf_cursor s b - buf_retain s b

unfoldable pub unread : Objects → Obj → Objects
unfolding buf_cursor set_buf_cursor
unread s b = set_buf_cursor s b (buf_cursor s b - 1)

-- The delimiter is unread; the span is the score, unless it is empty.
unfoldable pub int_accept : Objects → Obj → Obj → Obj × Objects
unfolding unread buf_span set_data
int_accept s b score =
    let s1 = unread s b in
    let n = buf_span s1 b in if ltb n 1 then (nil, s1) else (score, set_data s1 score 0 n)

-- Each state answers the next, for a buffer, a score object and a character object.
unfoldable pub int_digits : Objects → Obj → Obj → Obj → Obj × Objects
unfolding as_char int_accept
int_digits s b score chr =
    if is_ascii_digit (as_char s chr) then (int_state s 3, s) else int_accept s b score

unfoldable pub int_xdigits : Objects → Obj → Obj → Obj → Obj × Objects
unfolding as_char int_accept
int_xdigits s b score chr =
    let c = as_char s chr in
    if is_ascii_digit c || within 0x61 0x66 c || within 0x41 0x46 c
    then (int_state s 4, s)
    else int_accept s b score

unfoldable pub int_base : Objects → Obj → Obj → Obj → Obj × Objects
unfolding as_char int_digits
int_base s b score chr =
    let c = as_char s chr in
    if c == 0x78 || c == 0x58 then (int_state s 4, s) else int_digits s b score chr

unfoldable pub int_prefix : Objects → Obj → Obj → Obj → Obj × Objects
unfolding as_char unread
int_prefix s b score chr =
    let c = as_char s chr in
    if c == 0x30
    then (int_state s 2, s)
    else if not (is_ascii_digit c)
    then (nil, unread s b)
    else (int_state s 3, s)

unfoldable pub int_sign : Objects → Obj → Obj → Obj → Obj × Objects
unfolding as_char int_prefix
int_sign s b score chr =
    let c = as_char s chr in
    if c == 0x2b || c == 0x2d then (int_state s 1, s) else int_prefix s b score chr

-- The fold over the leading digits of a base: `char::to_digit` is `hex_digit` below the base.
unfoldable pub fold_digits : ℕ → ℤ → List ℕ → ℤ
unfolding hex_digit wrapping_add wrapping_mul
fold_digits base acc [] = acc
fold_digits base acc (c ∷ cs) = elim (hex_digit c) [
  | none ↦ acc
  | some d ↦
      let more = fold_digits base (wrapping_add (wrapping_mul acc (pos base)) (pos d)) cs in
      if ltb d base then more else acc
]

-- The body of a token behind its sign: hexadecimal behind `0x`, else decimal.
unfoldable pub body_value : List ℕ → ℤ
unfolding fold_digits
body_value (c ∷ x ∷ cs) =
    if c == 0x30 && (x == 0x78 || x == 0x58)
    then fold_digits 16 (pos 0) cs
    else fold_digits 10 (pos 0) (c ∷ x ∷ cs)
body_value cs = fold_digits 10 (pos 0) cs

-- The product with the sign wraps, as in a release build.
unfoldable pub token_value : List ℕ → ℤ
unfolding body_value wrapping_mul
token_value [] = body_value []
token_value (c ∷ cs) =
    if c == 0x2d
    then wrapping_mul (negsuc 0) (body_value cs)
    else if c == 0x2b
    then body_value cs
    else body_value (c ∷ cs)

abbrev pub drop : {A : Type 0} → ℕ → List A → List A
drop zero xs = xs
drop (suc n) [] = []
drop (suc n) (x ∷ xs) = drop n xs

abbrev pub take : {A : Type 0} → ℕ → List A → List A
take zero xs = []
take (suc n) [] = []
take (suc n) (x ∷ xs) = x ∷ take n xs

-- `int_read` before it boxes the value; the inner `none` is its answer nil.
unfoldable pub int_read : Objects → Obj → Option (Option ℤ)
unfolding buf_retain buf_cursor buf_text bytes_of buf_write token_value
int_read s b = if leb (buf_cursor s b) (buf_retain s b) then some none else (do
  bytes ← bytes_of s (buf_text s b)
  let stop = min (buf_write s b) (length bytes)
  some (some (token_value (drop (min (buf_retain s b) stop) (take stop bytes)))))
