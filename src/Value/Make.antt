-- ===== src/Value/Make.antt =====
-- src/value/: the constructors of the kinds, over `alloc`, and interning. The fuel is that of the
-- walk of the type-alist; `none` means that it ran out or that the arena is exhausted.
use x_engine_rust.Prelude.{
  ℕ, ◌+◌, max, Bool, Option, none, some, List, [], if◌then◌else◌, ◌>>=◌, get_or, replicate,
}
use x_engine_rust.Prelude.Int.{ℤ}
use x_engine_rust.Obj.{Obj, Addr, Word, Flags, EnvId, nil, is_nil, from_i64, plus}
use x_engine_rust.Heap.{new, set_byte, alloc_bytes, fill_bytes, store_bytes}
use x_engine_rust.Objects.{Objects, with_heap, set_type_word, set_data}
use x_engine_rust.Objects.Kinds.{
  flag_int, flag_char, flag_str, flag_sym, flag_ptr, flag_prim, flag_fn, flag_op, flag_env,
  flag_wrap, flag_foreign, flag_pair, flag_iter, flag_buf, flag_bufmarks, flag_cont, flag_tokeof,
  flag_false, codes,
}
use x_engine_rust.Symbols.{get_symbol, put_symbol}
use x_engine_rust.Value.{spair}
use x_engine_rust.Value.Text.{handle, byte_len}
use x_engine_rust.Typed.{type_for}
use x_engine_rust.Typed.Builtin.{alloc}

-- An object of one word.
unfoldable pub atom : ℕ → Objects → Flags → Word → Option (Obj × Objects)
unfolding alloc set_data
atom fuel s f w = do (o, s1) ← alloc fuel s f 1; some (o, set_data s1 o 0 w)

-- An object of two words.
unfoldable pub couple : ℕ → Objects → Flags → Word → Word → Option (Obj × Objects)
unfolding alloc set_data
couple fuel s f a b = do (o, s1) ← alloc fuel s f 2; some (o, set_data (set_data s1 o 0 a) o 1 b)

unfoldable pub int : ℕ → Objects → ℤ → Option (Obj × Objects)
unfolding atom from_i64
int fuel s v = atom fuel s flag_int (from_i64 v)

-- The code is a `u32`.
unfoldable pub char_new : ℕ → Objects → ℕ → Option (Obj × Objects)
unfolding atom
char_new fuel s c = atom fuel s flag_char c

unfoldable pub ptr : ℕ → Objects → Addr → Option (Obj × Objects)
unfolding atom
ptr fuel s at = atom fuel s flag_ptr at

unfoldable pub prim : ℕ → Objects → ℕ → Option (Obj × Objects)
unfolding atom
prim fuel s idx = atom fuel s flag_prim idx

unfoldable pub foreign : ℕ → Objects → ℕ → Option (Obj × Objects)
unfolding atom
foreign fuel s at = atom fuel s flag_foreign at

unfoldable pub env_obj : ℕ → Objects → EnvId → Option (Obj × Objects)
unfolding atom
env_obj fuel s id = atom fuel s flag_env id

unfoldable pub str_at : ℕ → Objects → Addr → Option (Obj × Objects)
unfolding atom
str_at fuel s at = atom fuel s flag_str at

unfoldable pub str_from_bytes : ℕ → Objects → List ℕ → Option (Obj × Objects)
unfolding store_bytes str_at
str_from_bytes fuel s bytes = do (at, h) ← store_bytes s.heap bytes; str_at fuel (with_heap s h) at

-- A region of `n` spaces with a NUL behind them.
unfoldable pub str_make : ℕ → Objects → ℕ → Option (Obj × Objects)
unfolding alloc_bytes fill_bytes set_byte str_at
str_make fuel s n = do
  (at, h) ← alloc_bytes s.heap (n + 1)
  str_at fuel (with_heap s (set_byte (fill_bytes h at 32 n) (plus at n) 0)) at

unfoldable pub sym : ℕ → Objects → List ℕ → Option (Obj × Objects)
unfolding get_symbol put_symbol store_bytes atom
sym fuel s name = elim (get_symbol s.shared_symbols name) [
  | some o ↦ some (o, s)
  | none ↦ elim (get_symbol s.symbols name) [
    | some o ↦ some (o, s)
    | none ↦ do
      (at, h) ← store_bytes s.heap name
      (o, s1) ← atom fuel (with_heap s h) flag_sym at
      some (o, record s1 { symbols = put_symbol s1.symbols name o })
  ]
]

unfoldable pub sym_shared : ℕ → Objects → List ℕ → Option (Obj × Objects)
unfolding get_symbol put_symbol store_bytes atom
sym_shared fuel s name = elim (get_symbol s.shared_symbols name) [
  | some o ↦ some (o, s)
  | none ↦ do
    (at, h) ← store_bytes s.heap name
    (o, s1) ← atom fuel (with_heap s h) flag_sym at
    some (o, record s1 { shared_symbols = put_symbol s1.shared_symbols name o })
]

unfoldable pub base_label : Objects → Option (Obj × Objects)
unfolding handle
base_label s =
    if is_nil s.base_label_atom
    then (do (o, s1) ← handle s (codes "BASE"); some (o, record s1 { base_label_atom = o }))
    else some (s.base_label_atom, s)

unfoldable pub pair : ℕ → Objects → Obj → Obj → Option (Obj × Objects)
unfolding couple
pair fuel s a b = couple fuel s flag_pair a b

unfoldable pub iter : ℕ → Objects → Obj → Obj → Option (Obj × Objects)
unfolding couple
iter fuel s step state = couple fuel s flag_iter step state

unfoldable pub wrapper : ℕ → Objects → Obj → Option (Obj × Objects)
unfolding alloc set_data
wrapper fuel s inner = do
  (o, s1) ← alloc fuel s flag_wrap 2
  some (o, set_data (set_data s1 o 0 (get_or s1.entry_words 2 0)) o 1 inner)

unfoldable pub cont : ℕ → Objects → ℕ → Option (Obj × Objects)
unfolding alloc set_data
cont fuel s id = do
  (o, s1) ← alloc fuel s flag_cont 2
  some (o, set_data (set_data s1 o 0 (get_or s1.entry_words 3 0)) o 1 id)

-- A closure: its entry, and the state spine `(params body env)`.
unfoldable pub closure : ℕ → Objects → Obj → Obj → EnvId → Option (Obj × Objects)
unfolding env_obj spair alloc set_data
closure fuel s params body env = do
  (e, s) ← env_obj fuel s env
  (s3, s) ← spair s e nil
  (s2, s) ← spair s body s3
  (state, s) ← spair s params s2
  (o, s) ← alloc fuel s flag_fn 2
  some (o, set_data (set_data s o 0 (get_or s.entry_words 0 0)) o 1 state)

-- An operative: its entry, and the state spine `(params envname body . env)`.
unfoldable pub operative : ℕ → Objects → Obj → Obj → Obj → EnvId → Option (Obj × Objects)
unfolding env_obj spair alloc set_data
operative fuel s params envname body env = do
  (e, s) ← env_obj fuel s env
  (s3, s) ← spair s body e
  (s2, s) ← spair s envname s3
  (state, s) ← spair s params s2
  (o, s) ← alloc fuel s flag_op 2
  some (o, set_data (set_data s o 0 (get_or s.entry_words 1 0)) o 1 state)

-- An instance of a type, with room for at least one word.
unfoldable pub instance_of : ℕ → Objects → Obj → ℕ → Option (Obj × Objects)
unfolding type_for alloc set_type_word
instance_of fuel s t n = do
  ty ← type_for fuel s t
  (o, s1) ← alloc fuel s 0 (max n 1)
  some (o, set_type_word s1 o ty)

-- A buffer over a text with its marks, its flag and the anchor of its lines.
unfoldable pub buf_writable : ℕ → Objects → Obj → ℕ → ℕ → Option (Obj × Objects)
unfolding alloc set_data
buf_writable fuel s text at write = do
  (marks, s) ← alloc fuel s flag_bufmarks 2
  let s = set_data (set_data s marks 0 at) marks 1 write
  (o, s) ← alloc fuel s flag_buf 7
  let s = set_data (set_data (set_data (set_data s o 0 at) o 1 marks) o 2 text) o 3 0
  some (o, set_data (set_data (set_data s o 4 0) o 5 1) o 6 0)

unfoldable pub buf_to : ℕ → Objects → Obj → ℕ → ℕ → Option (Obj × Objects)
unfolding buf_writable set_data
buf_to fuel s text at end = do
  (o, s1) ← buf_writable fuel s text at end
  some (o, set_data s1 o 3 1)

unfoldable pub buf : ℕ → Objects → Obj → ℕ → Option (Obj × Objects)
unfolding byte_len buf_to
buf fuel s text at = do end ← byte_len s text; buf_to fuel s text at end

-- The end of input holds its own address.
unfoldable pub token_eof : ℕ → Objects → Option (Obj × Objects)
unfolding alloc set_data
token_eof fuel s = do (o, s1) ← alloc fuel s flag_tokeof 1; some (o, set_data s1 o 0 o)

-- The store before anything is made in it.
abbrev pub empty_store : Bool → Objects
empty_store poison = record {
  heap = new;
  false_obj = nil;
  true_obj = nil;
  base = nil;
  meta_node = nil;
  spair_marker = nil;
  satom_marker = nil;
  heap_chain = nil;
  free = [];
  live = 0;
  poison_freed = poison;
  freed_kind = [];
  symbols = [];
  shared_symbols = [];
  state_nodes = replicate 4 nil;
  line_node = nil;
  int_read = nil;
  int_states = replicate 5 nil;
  kind_handles = replicate 15 nil;
  other_kind_handles = [];
  eval_handlers = replicate 2 nil;
  callable_call_handler = nil;
  list_call_handler = nil;
  base_label_atom = nil;
  entry_words = replicate 4 0;
}

-- `Objects::new`: the two labels, `#f` with two words, and `#t`. There is no base, so that no walk
-- is made.
unfoldable pub new_objects : Bool → Option Objects
unfolding alloc sym_shared
new_objects poison = do
  (o, s) ← alloc 0 (empty_store poison) 0 1
  let s = record s { spair_marker = o }
  (o, s) ← alloc 0 s 0 1
  let s = record s { satom_marker = o }
  (o, s) ← alloc 0 s flag_false 2
  let s = record s { false_obj = o }
  (o, s) ← sym_shared 0 s (codes "#t")
  some (record s { true_obj = o })
