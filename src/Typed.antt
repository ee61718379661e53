-- ===== src/Typed.antt =====
-- src/value/typed.rs and the enum of src/vocabulary.rs: type objects as spines of fields, and the
-- place of each handler in them. The handlers that `type_new` is given by name are not installed
-- here: `type_bare` is the run with none. `none` is an allocation that does not return.
pub mod Places
pub mod Builtin
use x_engine_rust.Prelude.{
  ℕ, zero, suc, ◌+◌, ◌-◌, ◌*◌, ◌/◌, ◌%◌, ◌^◌, ◌≤◌, ◌<◌, bit_and, bit_or, bit_xor, min, max, ◌≡◌,
  refl, sym, ap, ap₂, ◌∙◌, ◌≢◌, ◌↔◌, ◌⊎◌, inl, inr, Bool, true, false, not, ◌&&◌, ◌||◌, Option,
  none, some, List, [], ◌∷◌, ◌++◌, map, reverse, arith, ltb, leb, ◌==◌, if◌then◌else◌, ◌>>=◌,
  ltb→lt, lt→ltb, le→ltb_false, ltb_false→le, le→leb, ==_iff, ==_refl, ne→==_false, ==_false→ne,
  Bool-cases, Option-cases, length, get_or, set, replicate, length-append, length-set,
  length-replicate, get_or-set_self, get_or-set_ne, get_or-beyond, get_or-append_left,
  get_or-append_right,
}
use x_engine_rust.Obj.{
  Obj, Addr, Word, Flags, EnvId, IsWord, bit_not, word_bytes, nil, is_nil, as_i64, from_i64, offset,
  plus, word_index, byte_in_word, word_base,
}
use x_engine_rust.Objects.{
  Objects, FreeList, bucket, set_bucket, with_heap, header_slot, flags_word, set_flags_word,
  kind_bits, flags, is, type_of_word, set_type_word, slot, data_word, set_data, data_len,
  chain_next, set_chain_next, first, rest, meta_stamped, meta_slot, meta_i, set_meta_i, stamp_meta,
  meta_extra, free_key, take_free, write_header, meta_bits, clear_data, reuse, push_zeros, grow,
  lay_out, count_alloc, slot_heap, slot_type, slot_flags, slot_len, meta_len, flag_meta_bit,
  flag_meta_shift, flag_magic_bit,
}
use x_engine_rust.Value.{spair, is_cell, is_handle}
use x_engine_rust.Base.{get}

pub data Family : Type 0 where
  mark make free clone units length_of : Family
  call eval : Family
  from to : Family
  analyse delimit read write display : Family
  iter ops data_of : Family

-- A place in a type: the field of the spine, and the stack in the field.
unfoldable pub handler_slot : Family → ℕ × ℕ
handler_slot data_of = (1, 0)
handler_slot mark = (2, 0)
handler_slot make = (2, 1)
handler_slot free = (2, 2)
handler_slot clone = (2, 3)
handler_slot units = (2, 4)
handler_slot length_of = (2, 5)
handler_slot call = (3, 0)
handler_slot eval = (3, 1)
handler_slot from = (4, 0)
handler_slot to = (4, 1)
handler_slot analyse = (5, 0)
handler_slot delimit = (5, 1)
handler_slot read = (5, 2)
handler_slot write = (5, 3)
handler_slot display = (5, 4)
handler_slot iter = (6, 0)
handler_slot ops = (7, 0)

-- A field: a spine of `n` empty stacks, on top of `spine`.
unfoldable pub field_loop : ℕ → Objects → Obj → Option (Obj × Objects)
unfolding spair
field_loop zero s spine = some (spine, s)
field_loop (suc n) s spine = do
  (stack, s1) ← spair s nil nil
  (spine1, s2) ← spair s1 stack spine
  field_loop n s2 spine1

unfoldable pub field : ℕ → Objects → Option (Obj × Objects)
unfolding field_loop
field n s = field_loop n s nil

-- The spine of the slots, the last of which is its head.
unfoldable pub spine_of : List Obj → Objects → Obj → Option (Obj × Objects)
unfolding spair
spine_of [] s spine = some (spine, s)
spine_of (slot ∷ slots) s spine = do (spine1, s1) ← spair s slot spine; spine_of slots s1 spine1

unfoldable pub type_bare : Objects → Obj → Option (Obj × Objects)
unfolding field spair spine_of set_type_word
type_bare s name = do
  (heap, s) ← field 6 s
  (proc, s) ← field 2 s
  (cvt, s) ← field 2 s
  (io, s) ← field 5 s
  (iters, s) ← field 1 s
  (op, s) ← field 1 s
  (name_stack, s) ← spair s name nil
  (data_stack, s) ← spair s nil nil
  (spine, s) ← spine_of (op ∷ iters ∷ io ∷ cvt ∷ proc ∷ heap ∷ data_stack ∷ name_stack ∷ []) s nil
  some (spine, set_type_word s spine s.spair_marker)

-- `n` steps of `rest`.
unfoldable pub steps : ℕ → Objects → Obj → Obj
unfolding rest
steps zero s node = node
steps (suc n) s node = steps n s (rest s node)

unfoldable pub type_set_handler : Objects → Obj → Family → Obj → Objects
unfolding handler_slot steps first is_cell set_data
type_set_handler s ty key handler =
    let node = steps (handler_slot key).0 s ty in
    let fam = steps (handler_slot key).1 s (first s node) in
    let stack = first s fam in if is_cell s stack then set_data s stack 0 handler else s

-- `n` steps of `rest` that end at the first nil: `none` is the early return of nil.
unfoldable pub careful_steps : ℕ → Objects → Obj → Option Obj
unfolding rest
careful_steps zero s node = some node
careful_steps (suc n) s node =
    let next = rest s node in
    let more = careful_steps n s next in if is_nil next then none else more

unfoldable pub type_handler : Objects → Obj → Family → Obj
unfolding handler_slot careful_steps first
type_handler s o family = elim (careful_steps (handler_slot family).0 s o) [
  | none ↦ nil
  | some node ↦ elim (careful_steps (handler_slot family).1 s (first s node)) [
    | none ↦ nil
    | some fam ↦ first s (first s fam)
  ]
]

-- The walk of `type_for` over the type-alist, on fuel: the type filed under a handle.
unfoldable pub alist_find : ℕ → Objects → Obj → Obj → Option Obj
unfolding first rest
alist_find zero s at t = if is_nil at then some t else none
alist_find (suc fuel) s at t =
    let entry = first s at in
    let more = alist_find fuel s (rest s at) t in
    if is_nil at then some t else if first s entry == t then some (rest s entry) else more

unfoldable pub type_for : ℕ → Objects → Obj → Option Obj
unfolding is_handle alist_find get
type_for fuel s t =
    let found = alist_find fuel s (get s s.base 1) t in
    if not (is_handle s t) then some t else if is_nil s.base then some t else found

unfoldable pub handle_of_type : Objects → Obj → Obj
unfolding first
handle_of_type s ty = if is_nil ty then nil else first s (first s ty)

unfoldable pub iter_step : Objects → Obj → Obj
unfolding data_word
iter_step s o = data_word s o 0

unfoldable pub iter_state : Objects → Obj → Obj
unfolding data_word
iter_state s o = data_word s o 1
