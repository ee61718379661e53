-- ===== src/Value.antt =====
-- src/value/: pairs and list walks, operand reads, and what a callable or an environment object
-- holds. A `u64` read as an `i64` is an integer. A walk is on fuel, and `none` means that it ran
-- out: the spine has a cycle, or more cells than the fuel.
pub mod Buffer
pub mod Pairs
pub mod Text
pub mod Make
pub mod Atoms
pub mod Interned
use x_engine_rust.Prelude.{
  ℕ, zero, suc, ◌+◌, ◌-◌, ◌*◌, ◌/◌, ◌%◌, ◌^◌, ◌≤◌, ◌<◌, bit_and, bit_or, bit_xor, min, max, ◌≡◌,
  refl, sym, ap, ap₂, ◌∙◌, ◌≢◌, ◌↔◌, ◌⊎◌, inl, inr, Bool, true, false, not, ◌&&◌, ◌||◌, Option,
  none, some, List, [], ◌∷◌, ◌++◌, map, reverse, arith, ltb, leb, ◌==◌, if◌then◌else◌, ◌>>=◌,
  ltb→lt, lt→ltb, le→ltb_false, ltb_false→le, le→leb, ==_iff, ==_refl, ne→==_false, ==_false→ne,
  Bool-cases, Option-cases, length, get_or, set, replicate, length-append, length-set,
  length-replicate, get_or-set_self, get_or-set_ne, get_or-beyond, get_or-append_left,
  get_or-append_right,
}
use x_engine_rust.Obj.{
  Obj, Addr, Word, Flags, EnvId, IsWord, bit_not, word_bytes, nil, is_nil, as_i64, from_i64, offset,
  plus, word_index, byte_in_word, word_base,
}
use x_engine_rust.Prelude.Int.{ℤ}
use x_engine_rust.Objects.{
  Objects, FreeList, bucket, set_bucket, with_heap, header_slot, flags_word, set_flags_word,
  kind_bits, flags, is, type_of_word, set_type_word, slot, data_word, set_data, data_len,
  chain_next, set_chain_next, first, rest, meta_stamped, meta_slot, meta_i, set_meta_i, stamp_meta,
  meta_extra, free_key, take_free, write_header, meta_bits, clear_data, reuse, push_zeros, grow,
  lay_out, count_alloc, slot_heap, slot_type, slot_flags, slot_len, meta_len, flag_meta_bit,
  flag_meta_shift, flag_magic_bit,
}
use x_engine_rust.Objects.Kinds.{
  flag_buf, flag_tokeof, flag_wrap, flag_int, flag_char, flag_str, flag_ptr, flag_prim, flag_fn,
  flag_op, flag_env, flag_pair, flag_spair, flag_handle, flag_sym, flag_false, flag_foreign,
  flag_cont,
}

unfoldable pub is_pair : Objects → Obj → Bool
unfolding is
is_pair s o = is s o flag_pair

unfoldable pub is_spair : Objects → Obj → Bool
unfolding is
is_spair s o = is s o flag_spair

unfoldable pub is_cell : Objects → Obj → Bool
unfolding is
is_cell s o = is s o flag_pair || is s o flag_spair

unfoldable pub is_int : Objects → Obj → Bool
unfolding is
is_int s o = is s o flag_int

unfoldable pub is_char : Objects → Obj → Bool
unfolding is
is_char s o = is s o flag_char

unfoldable pub is_str : Objects → Obj → Bool
unfolding is
is_str s o = is s o flag_str

unfoldable pub is_ptr : Objects → Obj → Bool
unfolding is
is_ptr s o = is s o flag_ptr

unfoldable pub is_handle : Objects → Obj → Bool
unfolding is
is_handle s o = is s o flag_handle

unfoldable pub is_prim : Objects → Obj → Bool
unfolding is
is_prim s o = is s o flag_prim

unfoldable pub is_foreign : Objects → Obj → Bool
unfolding is
is_foreign s o = is s o flag_foreign

unfoldable pub is_closure : Objects → Obj → Bool
unfolding is
is_closure s o = is s o flag_fn

unfoldable pub is_op : Objects → Obj → Bool
unfolding is
is_op s o = is s o flag_op

unfoldable pub is_env : Objects → Obj → Bool
unfolding is
is_env s o = is s o flag_env

unfoldable pub is_cont : Objects → Obj → Bool
unfolding is
is_cont s o = is s o flag_cont

unfoldable pub is_false : Objects → Obj → Bool
unfolding is
is_false s o = is s o flag_false

-- The truth test of the language.
unfoldable pub truthy : Objects → Obj → Bool
unfolding is_false
truthy s o = not (is_nil o) && not (is_false s o)

unfoldable pub truth : Objects → Bool → Obj
truth s b = if b then s.true_obj else s.false_obj

unfoldable pub as_int : Objects → Obj → ℤ
unfolding data_word as_i64
as_int s o = as_i64 (data_word s o 0)

unfoldable pub as_char : Objects → Obj → ℕ
unfolding data_word
as_char s o = data_word s o 0 % 2 ^ 32

unfoldable pub as_byte : Objects → Obj → ℕ
unfolding data_word
as_byte s o = data_word s o 0 % 2 ^ 8

unfoldable pub as_ptr : Objects → Obj → Addr
unfolding data_word
as_ptr s o = data_word s o 0

-- A structural pair, whose type word `stamp_for` takes from `spair_marker`.
unfoldable pub spair : Objects → Obj → Obj → Option (Obj × Objects)
unfolding lay_out count_alloc set_data
spair s a b = do
  (o, s1) ← lay_out (count_alloc s) s.spair_marker flag_spair 2
  some (o, set_data (set_data s1 o 0 a) o 1 b)

-- The items of `ListIter` from `at`.
unfoldable pub list : ℕ → Objects → Obj → Option (List Obj)
unfolding is_cell first rest
list zero s at = if is_cell s at then none else some []
list (suc fuel) s at =
    let more = list fuel s (rest s at) in
    if is_cell s at then (do objs ← more; some (first s at ∷ objs)) else some []

-- The state spine of a callable, in its slot 1.
unfoldable pub state_of : Objects → Obj → Obj
unfolding data_word
state_of s o = data_word s o 1

unfoldable pub env_id : Objects → Obj → EnvId
unfolding data_word
env_id s o = data_word s o 0

unfoldable pub closure_params : Objects → Obj → Obj
unfolding state_of first
closure_params s o = first s (state_of s o)

unfoldable pub closure_body : Objects → Obj → Obj
unfolding state_of first rest
closure_body s o = first s (rest s (state_of s o))

unfoldable pub closure_env : Objects → Obj → EnvId
unfolding state_of first rest env_id
closure_env s o = env_id s (first s (rest s (rest s (state_of s o))))

unfoldable pub op_params : Objects → Obj → Obj
unfolding state_of first
op_params s o = first s (state_of s o)

unfoldable pub op_envname : Objects → Obj → Obj
unfolding state_of first rest
op_envname s o = first s (rest s (state_of s o))

unfoldable pub op_body : Objects → Obj → Obj
unfolding state_of first rest
op_body s o = first s (rest s (rest s (state_of s o)))

unfoldable pub op_env : Objects → Obj → EnvId
unfolding state_of rest env_id
op_env s o = env_id s (rest s (rest s (rest s (state_of s o))))

unfoldable pub prim_idx : Objects → Obj → ℕ
unfolding data_word
prim_idx s o = data_word s o 0

unfoldable pub foreign_addr : Objects → Obj → ℕ
unfolding data_word
foreign_addr s o = data_word s o 0

unfoldable pub cont_id : Objects → Obj → ℕ
unfolding data_word
cont_id s o = data_word s o 1

unfoldable pub is_wrapper : Objects → Obj → Bool
unfolding is
is_wrapper s o = is s o flag_wrap

unfoldable pub wrapper_inner : Objects → Obj → Obj
unfolding data_word
wrapper_inner s o = data_word s o 1

unfoldable pub is_sym : Objects → Obj → Bool
unfolding is
is_sym s o = is s o flag_sym

unfoldable pub is_buf : Objects → Obj → Bool
unfolding is
is_buf s o = is s o flag_buf

unfoldable pub is_token_eof : Objects → Obj → Bool
unfolding is
is_token_eof s o = is s o flag_tokeof
