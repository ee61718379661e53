-- ===== src/Objects.antt =====
-- src/objects.rs: the object model over the word arena, with `take_free` of src/collect.rs.
-- Header words are heap link, type, flags and length, then the data words. The checks that
-- `debug_assertions` compiles in are left out: this is the release build. `none` means that the
-- code does not return, because the arena's reservation is exhausted or a walk meets a cycle.
pub mod Header
pub mod Layout
pub mod Reuse
pub mod Grown
pub mod Alloc
pub mod FreeList
pub mod Exhausted
pub mod Spared
pub mod Kinds
use x_engine_rust.Prelude.{
  ℕ, zero, suc, ◌+◌, ◌-◌, ◌*◌, ◌/◌, ◌%◌, ◌^◌, ◌≤◌, ◌<◌, bit_and, bit_or, bit_xor, min, max, ◌≡◌,
  refl, sym, ap, ap₂, ◌∙◌, ◌≢◌, ◌↔◌, ◌⊎◌, inl, inr, Bool, true, false, not, ◌&&◌, ◌||◌, Option,
  none, some, List, [], ◌∷◌, ◌++◌, map, reverse, arith, ltb, leb, ◌==◌, if◌then◌else◌, ◌>>=◌,
  ltb→lt, lt→ltb, le→ltb_false, ltb_false→le, le→leb, ==_iff, ==_refl, ne→==_false, ==_false→ne,
  Bool-cases, Option-cases, length, get_or, set, replicate, length-append, length-set,
  length-replicate, get_or-set_self, get_or-set_ne, get_or-beyond, get_or-append_left,
  get_or-append_right,
}
use mathlib.Core.Option
use x_engine_rust.Obj.{
  Obj, Addr, Word, Flags, EnvId, IsWord, bit_not, word_bytes, nil, is_nil, as_i64, from_i64, offset,
  plus, word_index, byte_in_word, word_base,
}
use x_engine_rust.Heap
use x_engine_rust.Symbols.{Symbols}
use x_engine_rust.Heap.{Heap, word, set_word, note_allocation, push, frontier}

abbrev pub slot_heap : ℕ
slot_heap = 0

abbrev pub slot_type : ℕ
slot_type = 1

abbrev pub slot_flags : ℕ
slot_flags = 2

abbrev pub slot_len : ℕ
slot_len = 3

abbrev pub meta_len : ℕ
meta_len = 4

abbrev pub flag_meta_bit : ℕ
flag_meta_bit = 0x80

abbrev pub flag_meta_shift : ℕ
flag_meta_shift = 56

abbrev pub flag_magic_bit : ℕ
flag_magic_bit = 2 ^ 62

-- The free list by key, each `Vec` as a list with its last element first.
abbrev pub FreeList : Type 0
FreeList = List (ℕ × List Obj)

abbrev pub bucket : FreeList → ℕ → List Obj
bucket [] key = []
bucket ((k, objs) ∷ free) key = if k == key then objs else bucket free key

abbrev pub set_bucket : FreeList → ℕ → List Obj → FreeList
set_bucket [] key objs = (key, objs) ∷ []
set_bucket ((k, old) ∷ free) key objs =
    if k == key then (k, objs) ∷ free else (k, old) ∷ set_bucket free key objs

-- The fields of `Objects`, less the input stream and its capacity. `line_node` and `meta_node` are
-- `loc_nodes[0]` and `loc_nodes[1]`, and an array is a list.
pub record Objects : Type 0 where
  pub heap : Heap
  pub false_obj : Obj
  pub true_obj : Obj
  pub base : Obj
  pub meta_node : Obj
  pub spair_marker : Obj
  pub satom_marker : Obj
  pub heap_chain : Obj
  pub free : FreeList
  pub live : ℕ
  pub poison_freed : Bool
  pub freed_kind : List (Obj × ℕ × ℕ × ℕ)
  pub symbols : Symbols
  pub shared_symbols : Symbols
  pub state_nodes : List Obj
  pub line_node : Obj
  pub int_read : Obj
  pub int_states : List Obj
  pub kind_handles : List Obj
  pub other_kind_handles : List (Flags × Obj)
  pub eval_handlers : List Obj
  pub callable_call_handler : Obj
  pub list_call_handler : Obj
  pub base_label_atom : Obj
  pub entry_words : List Word

abbrev pub with_heap : Objects → Heap → Objects
with_heap o h = record o { heap = h }

-- The header slot `k` of an object.
abbrev pub header_slot : Obj → ℕ → Addr
header_slot o k = plus o (k * word_bytes)

unfoldable pub flags_word : Objects → Obj → ℕ
flags_word s o = word s.heap (header_slot o slot_flags)

unfoldable pub set_flags_word : Objects → Obj → ℕ → Objects
set_flags_word s o w = with_heap s (set_word s.heap (header_slot o slot_flags) w)

-- The kind bits of a flags word.
abbrev pub kind_bits : ℕ → Flags
kind_bits w = bit_and (bit_and w (bit_not flag_meta_bit)) 0x00ff_ffff_ffff_ffff

unfoldable pub flags : Objects → Obj → Flags
unfolding flags_word
flags s o = kind_bits (flags_word s o)

unfoldable pub is : Objects → Obj → Flags → Bool
unfolding flags
is s o f = not (is_nil o) && (flags s o == f)

unfoldable pub type_of_word : Objects → Obj → Obj
type_of_word s o = if is_nil o then nil else word s.heap (header_slot o slot_type)

unfoldable pub set_type_word : Objects → Obj → Obj → Objects
set_type_word s o t = with_heap s (set_word s.heap (header_slot o slot_type) t)

abbrev pub slot : Obj → ℕ → Addr
slot o i = plus o ((meta_len + i) * word_bytes)

unfoldable pub data_word : Objects → Obj → ℕ → Word
data_word s o i = if is_nil o then 0 else word s.heap (slot o i)

unfoldable pub set_data : Objects → Obj → ℕ → Word → Objects
set_data s o i v = with_heap s (set_word s.heap (slot o i) v)

unfoldable pub data_len : Objects → Obj → ℕ
data_len s o = word s.heap (header_slot o slot_len)

unfoldable pub chain_next : Objects → Obj → Obj
chain_next s o = word s.heap (header_slot o slot_heap)

unfoldable pub set_chain_next : Objects → Obj → Obj → Objects
set_chain_next s o next = with_heap s (set_word s.heap (header_slot o slot_heap) next)

unfoldable pub first : Objects → Obj → Obj
unfolding data_word
first s o = data_word s o 0

unfoldable pub rest : Objects → Obj → Obj
unfolding data_word
rest s o = data_word s o 1

unfoldable pub meta_stamped : Objects → Obj → Bool
unfolding flags_word
meta_stamped s o = not (is_nil o) && not (bit_and (flags_word s o) flag_meta_bit == 0)

-- The address of meta unit `i`, below the object: `wrapping_sub`.
abbrev pub meta_slot : Obj → ℕ → Addr
meta_slot o i = (o + (2 ^ 64 - (i + 1) * word_bytes)) % 2 ^ 64

unfoldable pub meta_i : Objects → Obj → ℕ → Word
unfolding meta_stamped
meta_i s o i = if meta_stamped s o then word s.heap (meta_slot o i) else 0

unfoldable pub set_meta_i : Objects → Obj → ℕ → Word → Objects
unfolding meta_stamped
set_meta_i s o i v = if meta_stamped s o then with_heap s (set_word s.heap (meta_slot o i) v) else s

unfoldable pub stamp_meta : Objects → Obj → Word → Word → Objects
unfolding set_meta_i
stamp_meta s o line file = set_meta_i (set_meta_i s o 0 line) o 1 file

unfoldable pub meta_extra : Objects → ℕ
unfolding first data_word
meta_extra s =
    let cell = first s s.meta_node in
    if is_nil s.meta_node then 0 else if is_nil cell then 0 else min (data_word s cell 0) 16

-- The key of the free list: data words above, meta words in the low byte.
abbrev pub free_key : ℕ → ℕ → ℕ
free_key n extra = bit_or (n * 2 ^ 8 % 2 ^ 64) extra

unfoldable pub take_free : Objects → ℕ → ℕ → Option (Obj × Objects)
take_free s n extra = if s.poison_freed then none else elim (bucket s.free (free_key n extra)) [
  | [] ↦ none
  | o ∷ objs ↦ some (o, record s { free = set_bucket s.free (free_key n extra) objs })
]

unfoldable pub write_header : Objects → Obj → Obj → Flags → ℕ → Objects
write_header s o ty f n =
    let h1 = set_word s.heap (header_slot o slot_heap) s.heap_chain in
    let h2 = set_word h1 (header_slot o slot_type) ty in
    let h3 = set_word h2 (header_slot o slot_flags) f in
    with_heap s (set_word h3 (header_slot o slot_len) n)

abbrev pub meta_bits : ℕ → ℕ
meta_bits extra =
    if ltb 0 extra then bit_or flag_meta_bit (extra * 2 ^ flag_meta_shift % 2 ^ 64) else 0

-- `for i in 0..n { set_data(o, i, NIL) }` from round `i` on.
unfoldable pub clear_data : Obj → ℕ → ℕ → Objects → Objects
unfolding set_data
clear_data o zero i s = s
clear_data o (suc left) i s = clear_data o left (i + 1) (set_data s o i nil)

-- The reuse branch of `alloc`.
unfoldable pub reuse : Objects → Obj → Obj → Flags → ℕ → ℕ → Objects
unfolding write_header flags_word set_flags_word clear_data
reuse s o ty f n extra =
    let s1 = write_header s o ty f n in
    let w = flags_word s1 o in
    let s2 = set_flags_word s1 o (bit_or (bit_or w flag_magic_bit) (meta_bits extra)) in
    let s3 = clear_data o n 0 s2 in record s3 { heap_chain = o }

unfoldable pub push_zeros : ℕ → Heap → Option Heap
push_zeros zero h = some h
push_zeros (suc k) h = push h 0 >>= push_zeros k

-- The growth branch of `alloc`.
unfoldable pub grow : Objects → Obj → Flags → ℕ → ℕ → Option (Obj × Objects)
unfolding push_zeros
grow s ty f n extra = do
  h ← push_zeros extra s.heap
  let at = frontier h
  h ← push h s.heap_chain
  h ← push h ty
  h ← push h (bit_or (bit_or f flag_magic_bit) (meta_bits extra))
  h ← push h n
  h ← push_zeros n h
  some (at, record s { heap = h; heap_chain = at })

-- `alloc` behind its `stamp_for`, which has chosen the type word `ty`.
unfoldable pub lay_out : Objects → Obj → Flags → ℕ → Option (Obj × Objects)
unfolding meta_extra take_free reuse grow
lay_out s ty f n =
    let extra = meta_extra s in
    elim (take_free s n extra) [
      | some (o, s1) ↦ some (o, reuse s1 o ty f n extra)
      | none ↦ grow s ty f n extra
    ]

-- The counters at the head of `alloc`.
unfoldable pub count_alloc : Objects → Objects
unfolding note_allocation
count_alloc s = record s { heap = note_allocation s.heap; live = s.live + 1 }
