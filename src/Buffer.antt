-- ===== src/Buffer.antt =====
-- src/prims/tok.rs: the instructions on buffers, behind the evaluation of their operands. The
-- loops are on the distance of the marks, and a mark is a `u64` that no operation here wraps.
use x_engine_rust.Prelude.{
  ℕ, zero, suc, ◌+◌, ◌-◌, ◌%◌, ◌^◌, ◌||◌, Option, some, ltb, leb, ◌==◌, if◌then◌else◌, ◌>>=◌,
}
use x_engine_rust.Obj.{Obj, Addr, nil, is_nil, plus}
use x_engine_rust.Heap.{byte, set_byte}
use x_engine_rust.Objects.{Objects, with_heap}
use x_engine_rust.Value.{as_char}
use x_engine_rust.Value.Text.{byte_len}
use x_engine_rust.Value.Buffer.{
  buf_retain, set_buf_retain, buf_cursor, set_buf_cursor, buf_write, set_buf_write, buf_ro,
  buf_text, str_bytes, buf_slice,
}
use x_engine_rust.Prelude.Int.{pos}
use x_engine_rust.Value.Make.{int, char_new, buf_writable, str_from_bytes}

abbrev pub Answer : Type 0
Answer = Option (Obj × Objects)

unfoldable pub buf_make : ℕ → Objects → Obj → Answer
unfolding buf_writable
buf_make fuel s o = buf_writable fuel s o 0 0

unfoldable pub buf_read : ℕ → Objects → Obj → Answer
unfolding buf_text buf_cursor buf_write str_bytes byte set_buf_cursor char_new
buf_read fuel s b =
    let at = buf_cursor s b in
    let c = byte s.heap (plus (str_bytes s (buf_text s b)) at) in
    if leb (buf_write s b) at then some (nil, s) else char_new fuel (set_buf_cursor s b (at + 1)) c

unfoldable pub buf_tok : ℕ → Objects → Obj → Answer
unfolding buf_slice buf_retain buf_cursor str_from_bytes
buf_tok fuel s b = str_from_bytes fuel s (buf_slice s b (buf_retain s b) (buf_cursor s b))

unfoldable pub buf_last_char : ℕ → Objects → Obj → Answer
unfolding buf_text buf_cursor buf_write str_bytes byte int
buf_last_char fuel s b =
    let at = buf_cursor s b in
    let c = byte s.heap (plus (str_bytes s (buf_text s b)) (at - 1)) in
    if at == 0 || ltb (buf_write s b) at then some (nil, s) else int fuel s (pos c)

-- `left` bytes at `at + i`, `at + i + 1`, … of a region go to `i`, `i + 1`, …
unfoldable pub compact_loop : Objects → Addr → ℕ → ℕ → ℕ → Objects
unfolding byte set_byte
compact_loop s base at zero i = s
compact_loop s base at (suc left) i =
    compact_loop (with_heap s (set_byte s.heap (plus base i) (byte s.heap (plus base (at + i)))))
      base at left (i + 1)

unfoldable pub buf_retain_prim : Objects → Obj → Objects
unfolding buf_cursor buf_ro set_buf_retain buf_text str_bytes buf_write compact_loop set_buf_cursor
    set_buf_write
buf_retain_prim s b =
    let at = buf_cursor s b in
    let w = buf_write s b in
    let s1 = compact_loop s (str_bytes s (buf_text s b)) at (w - at) 0 in
    if buf_ro s b
    then set_buf_retain s b at
    else set_buf_write (set_buf_cursor (set_buf_retain s1 b 0) b 0) b (w - at)

unfoldable pub buf_reset : Objects → Obj → Objects
unfolding buf_retain set_buf_cursor
buf_reset s b = set_buf_cursor s b (buf_retain s b)

unfoldable pub buf_append : Objects → Obj → Obj → Option Objects
unfolding buf_text buf_write byte_len str_bytes as_char set_byte set_buf_write
buf_append s b ch = do
  n ← byte_len s (buf_text s b)
  let w = buf_write s b
  let s1 =
      with_heap s (set_byte s.heap (plus (str_bytes s (buf_text s b)) w) (as_char s ch % 2 ^ 8))
  some (if ltb w n then set_buf_write s1 b (w + 1) else s)

unfoldable pub buf_read_text : ℕ → Objects → Obj → Answer
unfolding buf_read as_char
buf_read_text fuel s b = do
  (got, s1) ← buf_read fuel s b
  some (if is_nil got then nil else if as_char s1 got == 0 then nil else b, s1)
