-- ===== src/Pending.antt =====
-- src/eval.rs: the rows of the current base in which the evaluator keeps what is pending: the save
-- stack, the tail that is parked, and the stack of guards. Their nodes are in `state_nodes`.
-- `none` of a push means that the arena's reservation is exhausted; `none` of `tail_take` is that
-- of the source.
pub mod Rows
use x_engine_rust.Prelude.{
  ℕ, zero, suc, ◌+◌, ◌-◌, ◌*◌, ◌/◌, ◌%◌, ◌^◌, ◌≤◌, ◌<◌, bit_and, bit_or, bit_xor, min, max, ◌≡◌,
  refl, ap, ap₂, ◌∙◌, ◌≢◌, ◌↔◌, ◌⊎◌, inl, inr, Bool, true, false, not, ◌&&◌, ◌||◌, Option, none,
  some, List, [], ◌∷◌, ◌++◌, map, reverse, arith, ltb, leb, ◌==◌, if◌then◌else◌, ◌>>=◌, ltb→lt,
  lt→ltb, le→ltb_false, ltb_false→le, le→leb, ==_iff, ==_refl, ne→==_false, ==_false→ne, Bool-cases,
  Option-cases, length, get_or, set, replicate, length-append, length-set, length-replicate,
  get_or-set_self, get_or-set_ne, get_or-beyond, get_or-append_left, get_or-append_right,
}
use x_engine_rust.Obj.{
  Obj, Addr, Word, Flags, EnvId, IsWord, bit_not, word_bytes, nil, is_nil, as_i64, from_i64, offset,
  plus, word_index, byte_in_word, word_base,
}
use x_engine_rust.Objects.{
  Objects, FreeList, bucket, set_bucket, with_heap, header_slot, flags_word, set_flags_word,
  kind_bits, flags, is, type_of_word, set_type_word, slot, data_word, set_data, data_len,
  chain_next, set_chain_next, first, rest, meta_stamped, meta_slot, meta_i, set_meta_i, stamp_meta,
  meta_extra, free_key, take_free, write_header, meta_bits, clear_data, reuse, push_zeros, grow,
  lay_out, count_alloc, slot_heap, slot_type, slot_flags, slot_len, meta_len, flag_meta_bit,
  flag_meta_shift, flag_magic_bit,
}
use x_engine_rust.Value.{spair, is_cell}
use x_engine_rust.Value.Make.{pair, sym}
use x_engine_rust.Objects.Kinds.{codes}

abbrev pub sn_save : ℕ
sn_save = 0

abbrev pub sn_tco_expr : ℕ
sn_tco_expr = 1

abbrev pub sn_tco_env : ℕ
sn_tco_env = 2

abbrev pub sn_handler : ℕ
sn_handler = 3

-- `self.objects.state_nodes[i]`.
abbrev pub state_node : Objects → ℕ → Obj
state_node s i = get_or s.state_nodes i nil

unfoldable pub hide_pending : Objects → Obj × Objects
unfolding first set_data
hide_pending s = let node = state_node s sn_save in (first s node, set_data s node 0 nil)

unfoldable pub restore_pending : Objects → Obj → Objects
unfolding set_data
restore_pending s outer = set_data s (state_node s sn_save) 0 outer

-- A cell of `env` on the stack of a row: the body of `save_push` and of `handler_push`.
unfoldable pub row_push : Objects → ℕ → EnvId → Option Objects
unfolding first spair set_data
row_push s i env = do
  (cell, s1) ← spair s env (first s (state_node s i))
  some (set_data s1 (state_node s i) 0 cell)

unfoldable pub row_pop : Objects → ℕ → Objects
unfolding first rest set_data
row_pop s i = let node = state_node s i in set_data s node 0 (rest s (first s node))

unfoldable pub save_push : Objects → EnvId → Option Objects
unfolding row_push
save_push s env = row_push s sn_save env

unfoldable pub save_pop : Objects → Objects
unfolding row_pop
save_pop s = row_pop s sn_save

unfoldable pub handler_push : Objects → EnvId → Option Objects
unfolding row_push
handler_push s env = row_push s sn_handler env

unfoldable pub handler_pop : Objects → Objects
unfolding row_pop
handler_pop s = row_pop s sn_handler

unfoldable pub handler_active : Objects → Bool
unfolding first
handler_active s = not (is_nil (first s (state_node s sn_handler)))

unfoldable pub nothing_pending : Objects → Bool
unfolding first
nothing_pending s = is_nil (first s (state_node s sn_save))

unfoldable pub park_tail : Objects → Obj → EnvId → Objects
unfolding set_data
park_tail s form env =
    set_data (set_data s (state_node s sn_tco_expr) 0 form) (state_node s sn_tco_env) 0 env

unfoldable pub tail_take : Objects → Option (Obj × EnvId) × Objects
unfolding first set_data
tail_take s =
    let node = state_node s sn_tco_expr in
    let form = first s node in
    let env_node = state_node s sn_tco_env in
    let env = first s env_node in
    if is_nil form
    then (none, s)
    else (some (form, env), set_data (set_data s node 0 nil) env_node 0 nil)

-- The element `n` of an unevaluated spine.
unfoldable pub nth : Objects → Obj → ℕ → Obj
unfolding is_cell first rest
nth s l zero = if is_cell s l then first s l else nil
nth s l (suc n) = if is_cell s l then nth s (rest s l) n else nil

-- The values from the last to the first, each a pair onto the spine.
unfoldable pub value_spine : ℕ → Objects → List Obj → Option (Obj × Objects)
unfolding pair
value_spine fuel s [] = some (nil, s)
value_spine fuel s (v ∷ vals) = do (out, s1) ← value_spine fuel s vals; pair fuel s1 v out

-- The loop of `quote_values`, with the symbol `lit`.
unfoldable pub quote_loop : ℕ → Objects → Obj → List Obj → Option (Obj × Objects)
unfolding pair
quote_loop fuel s lit [] = some (nil, s)
quote_loop fuel s lit (v ∷ vals) = do
  (out, s) ← quote_loop fuel s lit vals
  (inner, s) ← pair fuel s v nil
  (q, s) ← pair fuel s lit inner
  pair fuel s q out

unfoldable pub quote_values : ℕ → Objects → List Obj → Option (Obj × Objects)
unfolding sym quote_loop
quote_values fuel s vals = do (lit, s1) ← sym fuel s (codes "lit"); quote_loop fuel s1 lit vals
