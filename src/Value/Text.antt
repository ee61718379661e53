-- ===== src/Value/Text.antt =====
-- src/value/text.rs: strings and handles over NUL-terminated runs of the arena. `none` is an
-- allocation that does not return.
use x_engine_rust.Prelude.{ℕ, zero, suc, ◌+◌, Option, some, List, [], ◌∷◌, ◌>>=◌, length}
use x_engine_rust.Obj.{Obj, Addr, plus}
use x_engine_rust.Heap.{set_byte, alloc_bytes, store_bytes, bytes_at}
use x_engine_rust.Objects.{Objects, with_heap, data_word, set_data, lay_out, count_alloc}
use x_engine_rust.Objects.Kinds.{flag_handle}
use x_engine_rust.Value.Buffer.{str_bytes}

abbrev pub error_scratch : ℕ
error_scratch = 255

unfoldable pub bytes_of : Objects → Obj → Option (List ℕ)
unfolding str_bytes bytes_at
bytes_of s o = bytes_at s.heap (str_bytes s o)

unfoldable pub byte_len : Objects → Obj → Option ℕ
unfolding bytes_of
byte_len s o = do bytes ← bytes_of s o; some (length bytes)

-- An object over the run at `at` with the label of handles, whose type word `stamp_for` takes from
-- `satom_marker`.
unfoldable pub handle_over : Objects → Addr → Option (Obj × Objects)
unfolding lay_out count_alloc set_data
handle_over s at = do
  (o, s1) ← lay_out (count_alloc s) s.satom_marker flag_handle 1
  some (o, set_data s1 o 0 at)

unfoldable pub handle : Objects → List ℕ → Option (Obj × Objects)
unfolding store_bytes handle_over
handle s name = do (at, h) ← store_bytes s.heap name; handle_over (with_heap s h) at

unfoldable pub error_atom : Objects → Option (Obj × Objects)
unfolding alloc_bytes set_byte handle_over
error_atom s = do
  (at, h) ← alloc_bytes s.heap (error_scratch + 1)
  handle_over (with_heap s (set_byte h at 0)) at

-- The bytes of a message at `at` from offset `i` on, at most `left` of them, and the NUL.
unfoldable pub message_loop : ℕ → List ℕ → Addr → ℕ → Objects → Objects
unfolding set_byte
message_loop zero bytes at i s = with_heap s (set_byte s.heap (plus at i) 0)
message_loop (suc left) [] at i s = with_heap s (set_byte s.heap (plus at i) 0)
message_loop (suc left) (b ∷ bytes) at i s =
    message_loop left bytes at (i + 1) (with_heap s (set_byte s.heap (plus at i) b))

unfoldable pub error_atom_set : Objects → Obj → List ℕ → Objects
unfolding data_word message_loop
error_atom_set s atom text = message_loop error_scratch text (data_word s atom 0) 0 s
