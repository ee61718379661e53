-- ===== src/Instructions.antt =====
-- src/prims/str.rs, src/prims/obj.rs, src/prims/ptr.rs, src/prims/num.rs and src/prims/iter.rs: the
-- instructions on values, behind the evaluation of their operands. Each answers an object and the
-- store. The fuel is that of list walks and of the type-alist; `none` means that it ran out or that
-- the arena is exhausted. The reading of bytes as text, which replaces what is not UTF-8, is a
-- parameter.
pub mod Counts
use x_engine_rust.Prelude.{
  ℕ, zero, suc, ◌+◌, ◌%◌, ◌^◌, Bool, not, ◌&&◌, ◌||◌, Option, some, List, [], ◌∷◌, ◌++◌, ◌==◌,
  if◌then◌else◌, ◌>>=◌,
}
use x_engine_rust.Prelude.Int.{ℤ, pos, pos_part, ltb_ℤ}
use x_engine_rust.Obj.{Obj, Addr, is_nil, as_i64, from_i64, plus}
use x_engine_rust.Heap.{byte, address_of, alloc_bytes}
use x_engine_rust.Objects.{Objects, with_heap, data_word}
use x_engine_rust.Value.{as_int, as_char, as_byte, as_ptr, list, truth}
use x_engine_rust.Value.Buffer.{str_bytes}
use x_engine_rust.Value.Text.{bytes_of, byte_len}
use x_engine_rust.Value.Make.{
  sym, int, char_new, ptr, foreign, str_make, str_from_bytes, iter, pair,
}
use x_engine_rust.Num.{wrapping_add}

abbrev pub Answer : Type 0
Answer = Option (Obj × Objects)

-- The instructions on strings.
unfoldable pub str_make_prim : ℕ → Objects → Obj → Answer
unfolding as_int str_make
str_make_prim fuel s n = str_make fuel s (pos_part (as_int s n))

unfoldable pub str_byte_len : ℕ → Objects → Obj → Answer
unfolding byte_len int
str_byte_len fuel s o = do n ← byte_len s o; int fuel s (pos n)

-- The offset that a negative index counts from the end.
unfoldable pub byte_index : Objects → Obj → ℤ → Option ℤ
unfolding byte_len wrapping_add
byte_index s o i =
    if ltb_ℤ i (pos 0) then (do n ← byte_len s o; some (wrapping_add i (pos n))) else some i

unfoldable pub str_byte_ref : ℕ → Objects → Obj → Obj → Answer
unfolding byte_index as_int str_bytes byte char_new
str_byte_ref fuel s o i = do
  k ← byte_index s o (as_int s i)
  char_new fuel s (byte s.heap (plus (str_bytes s o) (pos_part k)))

-- The bytes at `left` offsets from `i` on.
unfoldable pub bytes_from : Objects → Addr → ℕ → ℕ → List ℕ
unfolding byte
bytes_from s at zero i = []
bytes_from s at (suc left) i = byte s.heap (plus at i) ∷ bytes_from s at left (i + 1)

unfoldable pub str_byte_sub : ℕ → Objects → Obj → Obj → Obj → Answer
unfolding as_int bytes_from str_bytes str_from_bytes
str_byte_sub fuel s o off len =
    str_from_bytes fuel s
      (bytes_from s (str_bytes s o) (pos_part (as_int s len)) (pos_part (as_int s off)))

unfoldable pub str_append : ℕ → Objects → Obj → Obj → Answer
unfolding bytes_of str_from_bytes
str_append fuel s x y = do a ← bytes_of s x; b ← bytes_of s y; str_from_bytes fuel s (a ++ b)

unfoldable pub list_bytes : Objects → List Obj → List ℕ
unfolding as_byte
list_bytes s [] = []
list_bytes s (o ∷ objs) = as_byte s o ∷ list_bytes s objs

unfoldable pub bytes_to_str : ℕ → Objects → Obj → Answer
unfolding list list_bytes str_from_bytes
bytes_to_str fuel s o = do items ← list fuel s o; str_from_bytes fuel s (list_bytes s items)

-- The instructions on objects.
unfoldable pub is_eq : Objects → Obj → Obj → Bool
unfolding data_word
is_eq s a b = a == b || not (is_nil a) && not (is_nil b) && (data_word s a 0 == data_word s b 0)

unfoldable pub eq_prim : Objects → Obj → Obj → Obj
unfolding is_eq truth
eq_prim s a b = truth s (is_eq s a b)

unfoldable pub same_prim : Objects → Obj → Obj → Obj
unfolding truth
same_prim s a b = truth s (a == b)

unfoldable pub pair_prim : ℕ → Objects → Obj → Obj → Answer
unfolding pair
pair_prim fuel s a b = pair fuel s a b

unfoldable pub make_callable : ℕ → Objects → Obj → Answer
unfolding as_ptr foreign
make_callable fuel s o = foreign fuel s (as_ptr s o)

-- The instructions on characters and pointers.
unfoldable pub char_to_int : ℕ → Objects → Obj → Answer
unfolding as_char int
char_to_int fuel s o = int fuel s (pos (as_char s o))

unfoldable pub int_to_char : ℕ → Objects → Obj → Answer
unfolding as_int char_new
int_to_char fuel s o = char_new fuel s (from_i64 (as_int s o) % 2 ^ 32)

unfoldable pub obj_to_ptr : ℕ → Objects → Obj → Answer
unfolding ptr
obj_to_ptr fuel s o = ptr fuel s o

unfoldable pub ptr_to_obj : Objects → Obj → Obj
unfolding as_ptr
ptr_to_obj s o = as_ptr s o

unfoldable pub ptr_to_int : ℕ → Objects → Obj → Answer
unfolding as_ptr as_i64 int
ptr_to_int fuel s o = int fuel s (as_i64 (as_ptr s o))

unfoldable pub int_to_ptr : ℕ → Objects → Obj → Answer
unfolding as_int from_i64 ptr
int_to_ptr fuel s o = ptr fuel s (from_i64 (as_int s o))

unfoldable pub iter_make : ℕ → Objects → Obj → Obj → Answer
unfolding iter
iter_make fuel s step state = iter fuel s step state

-- `base` is the address of the arena in the process.
unfoldable pub str_to_ptr : ℕ → ℕ → Objects → Obj → Answer
unfolding str_bytes ptr
str_to_ptr fuel base s o = ptr fuel s (address_of base (str_bytes s o))

unfoldable pub mem_alloc : ℕ → ℕ → Objects → Obj → Answer
unfolding as_int alloc_bytes ptr
mem_alloc fuel base s o = do
  (at, h) ← alloc_bytes s.heap (pos_part (as_int s o))
  ptr fuel (with_heap s h) (address_of base at)

module _ (lossy : List ℕ → List ℕ) where
  unfoldable pub str_to_sym : ℕ → Objects → Obj → Answer
  unfolding bytes_of sym
  str_to_sym fuel s o = do bytes ← bytes_of s o; sym fuel s (lossy bytes)

  unfoldable pub sym_to_str : ℕ → Objects → Obj → Answer
  unfolding bytes_of str_from_bytes
  sym_to_str fuel s o = do bytes ← bytes_of s o; str_from_bytes fuel s (lossy bytes)
