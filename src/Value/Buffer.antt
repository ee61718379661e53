-- ===== src/Value/Buffer.antt =====
-- src/value/tok.rs and src/read.rs: the buffer object `(val . (read . write))` with its marks.
use x_engine_rust.Prelude.{
  ℕ, zero, suc, ◌+◌, ◌-◌, Bool, not, List, [], ◌∷◌, ltb, ◌==◌, if◌then◌else◌,
}
use x_engine_rust.Obj.{Obj, Addr, plus}
use x_engine_rust.Heap.{byte}
use x_engine_rust.Objects.{Objects, data_word, set_data}

-- The val mark.
unfoldable pub buf_retain : Objects → Obj → ℕ
unfolding data_word
buf_retain s o = data_word s o 0

unfoldable pub set_buf_retain : Objects → Obj → ℕ → Objects
unfolding set_data
set_buf_retain s o at = set_data s o 0 at

-- The object of the read and the write mark.
abbrev pub marks : Objects → Obj → Obj
marks s o = data_word s o 1

unfoldable pub buf_cursor : Objects → Obj → ℕ
unfolding data_word
buf_cursor s o = data_word s (marks s o) 0

unfoldable pub set_buf_cursor : Objects → Obj → ℕ → Objects
unfolding set_data
set_buf_cursor s o at = set_data s (marks s o) 0 at

unfoldable pub buf_write : Objects → Obj → ℕ
unfolding data_word
buf_write s o = data_word s (marks s o) 1

unfoldable pub set_buf_write : Objects → Obj → ℕ → Objects
unfolding set_data
set_buf_write s o at = set_data s (marks s o) 1 at

unfoldable pub buf_ro : Objects → Obj → Bool
unfolding data_word
buf_ro s o = not (data_word s o 3 == 0)

unfoldable pub buf_text : Objects → Obj → Obj
unfolding data_word
buf_text s o = data_word s o 2

-- Where a string's bytes live.
unfoldable pub str_bytes : Objects → Obj → Addr
unfolding data_word
str_bytes s o = data_word s o 0

-- The newlines among `left` bytes of `at` from offset `i` on.
unfoldable pub newlines : Objects → Addr → ℕ → ℕ → ℕ
unfolding byte
newlines s at zero i = 0
newlines s at (suc left) i =
    (if byte s.heap (plus at i) == 10 then 1 else 0) + newlines s at left (i + 1)

-- The 1-based line at the cursor: the state with the anchor moved there, and the line's word.
unfoldable pub buf_line : Objects → Obj → ℕ × Objects
unfolding buf_text str_bytes buf_cursor newlines data_word set_data
buf_line s b =
    let at = str_bytes s (buf_text s b) in
    let cursor = buf_cursor s b in
    let rewound = ltb cursor (data_word s b 4) in
    let pos = if rewound then 0 else data_word s b 4 in
    let line = (if rewound then 1 else data_word s b 5) + newlines s at (cursor - pos) pos in
    (line, set_data (set_data s b 4 cursor) b 5 line)

unfoldable pub buf_line_shift : Objects → Obj → ℕ → Objects
unfolding data_word set_data
buf_line_shift s b shift = set_data s b 4 (data_word s b 4 - shift)

unfoldable pub buf_bump : Objects → Obj → Objects
unfolding buf_cursor set_buf_cursor
buf_bump s b = set_buf_cursor s b (buf_cursor s b + 1)

-- The bytes of `left` offsets from `i` on.
unfoldable pub slice_loop : Objects → Addr → ℕ → ℕ → List ℕ
unfolding byte
slice_loop s at zero i = []
slice_loop s at (suc left) i = byte s.heap (plus at i) ∷ slice_loop s at left (i + 1)

unfoldable pub buf_slice : Objects → Obj → ℕ → ℕ → List ℕ
unfolding buf_text str_bytes slice_loop
buf_slice s b start end = slice_loop s (str_bytes s (buf_text s b)) (end - start) start
