-- ===== src/Collect.antt =====
-- src/collect.rs: mark and sweep. The allocation chain is walked on fuel, and `none` means that it
-- ran out: the chain has a cycle, or more objects than the fuel. The root set, the hooks and the
-- purge of side tables are in Engine.Gc.
pub mod Chain
pub mod Edges
pub mod Mark
pub mod Marks
pub mod Round
pub mod Rounds
pub mod Sweep
pub mod Tracing
pub mod Visit
pub mod Whole
use x_engine_rust.Prelude.{
  ℕ, zero, suc, ◌+◌, ◌-◌, ◌*◌, ◌/◌, ◌%◌, ◌^◌, ◌≤◌, ◌<◌, bit_and, bit_or, bit_xor, min, max, ◌≡◌,
  refl, sym, ap, ap₂, ◌∙◌, ◌≢◌, ◌↔◌, ◌⊎◌, inl, inr, Bool, true, false, not, ◌&&◌, ◌||◌, Option,
  none, some, List, [], ◌∷◌, ◌++◌, map, reverse, arith, ltb, leb, ◌==◌, if◌then◌else◌, ◌>>=◌,
  ltb→lt, lt→ltb, le→ltb_false, ltb_false→le, le→leb, ==_iff, ==_refl, ne→==_false, ==_false→ne,
  Bool-cases, Option-cases, length, get_or, set, replicate, length-append, length-set,
  length-replicate, get_or-set_self, get_or-set_ne, get_or-beyond, get_or-append_left,
  get_or-append_right,
}
use x_engine_rust.Obj.{
  Obj, Addr, Word, Flags, EnvId, IsWord, bit_not, word_bytes, nil, is_nil, as_i64, from_i64, offset,
  plus, word_index, byte_in_word, word_base,
}
use x_engine_rust.Heap.{words_len}
use x_engine_rust.Objects.{
  Objects, FreeList, bucket, set_bucket, with_heap, header_slot, flags_word, set_flags_word,
  kind_bits, flags, is, type_of_word, set_type_word, slot, data_word, set_data, data_len,
  chain_next, set_chain_next, first, rest, meta_stamped, meta_slot, meta_i, set_meta_i, stamp_meta,
  meta_extra, free_key, take_free, write_header, meta_bits, clear_data, reuse, push_zeros, grow,
  lay_out, count_alloc, slot_heap, slot_type, slot_flags, slot_len, meta_len, flag_meta_bit,
  flag_meta_shift, flag_magic_bit,
}
use x_engine_rust.Objects.Kinds.{
  flag_pair, flag_spair, flag_iter, flag_fn, flag_op, flag_wrap, flag_env, flag_envh, flag_false,
  flag_buf, flag_bufmarks,
}

abbrev pub mark_bit : ℕ
mark_bit = 2 ^ 63

abbrev pub poison : ℕ
poison = 0x0bad_0bad_0bad_0bad

abbrev pub freed_word : ℕ
freed_word = 0x0dead_0dead_0dead

unfoldable pub is_freed : Objects → Obj → Bool
unfolding flags_word
is_freed s o = flags_word s o == freed_word || flags_word s o == poison

unfoldable pub is_marked : Objects → Obj → Bool
unfolding flags_word
is_marked s o = not (bit_and (flags_word s o) mark_bit == 0)

unfoldable pub set_mark : Objects → Obj → Objects
unfolding flags_word set_flags_word
set_mark s o = set_flags_word s o (bit_or (flags_word s o) mark_bit)

unfoldable pub clear_mark : Objects → Obj → Objects
unfolding flags_word set_flags_word
clear_mark s o = set_flags_word s o (bit_and (flags_word s o) (bit_not mark_bit))

unfoldable pub plausible : Objects → ℕ → Bool
plausible s w = not (w == 0) && (w % 8 == 0) && leb (w / 8 + meta_len) (words_len s.heap)

-- `checked_add` fails past a `u64`.
unfoldable pub extent_ok : Objects → Obj → ℕ → Bool
extent_ok s o n =
    let end = o / 8 + (meta_len + n) % 2 ^ 64 in ltb end (2 ^ 64) && leb end (words_len s.heap)

-- Data words `i`, `i + 1`, … of an object.
unfoldable pub data_words : Objects → Obj → ℕ → ℕ → List Word
unfolding data_word
data_words s o zero i = []
data_words s o (suc left) i = data_word s o i ∷ data_words s o left (i + 1)

unfoldable pub keep_plausible : Objects → List Word → List Obj
unfolding plausible
keep_plausible s [] = []
keep_plausible s (w ∷ ws) =
    let kept = keep_plausible s ws in if plausible s w then w ∷ kept else kept

-- What `mark` pushes for a marked object of a kind, in the order of the pushes.
unfoldable pub children : Objects → Obj → Flags → ℕ → List Obj
unfolding data_word data_words keep_plausible extent_ok
children s o f n =
    if f == flag_pair || f == flag_spair || f == flag_iter
    then data_words s o 2 0
    else if f == flag_fn || f == flag_op || f == flag_wrap
    then data_words s o 1 1
    else if f == flag_env
    then data_words s o 1 0
    else if f == flag_envh
    then data_words s o 3 0
    else if f == flag_false
    then (if extent_ok s o n then data_words s o n 0 else [])
    else if f == flag_buf
    then data_words s o 2 1
    else if f == flag_bufmarks
    then []
    else if f == 0 && extent_ok s o n
    then keep_plausible s (data_words s o n 0)
    else []

-- The stack is a list with its top first.
unfoldable pub push_each : List Obj → List Obj → List Obj
push_each [] stack = stack
push_each (o ∷ objs) stack = push_each objs (o ∷ stack)

-- One round of `mark` on the object that it popped: the state and the stack after it.
unfoldable pub visit : Objects → Obj → List Obj → Objects × List Obj
unfolding is_marked set_mark plausible type_of_word children push_each data_len flags_word
visit s o stack =
    if is_nil o || not (plausible s o) || is_marked s o
    then (s, stack)
    else if bit_and (flags_word s o) flag_magic_bit == 0
    then (s, stack)
    else let s1 = set_mark s o in
      let ty = type_of_word s1 o in
      let stack1 = if is_nil ty then stack else ty ∷ stack in
      (s1, push_each (children s1 o (kind_bits (flags_word s1 o)) (data_len s1 o)) stack1)

unfoldable pub mark : ℕ → List Obj → Objects → Option Objects
mark fuel [] s = some s
mark zero (o ∷ stack) s = none
mark (suc fuel) (o ∷ stack) s = let (s1, stack1) = visit s o stack in mark fuel stack1 s1

-- The count of meta words that rides in a flags word, as `sweep` reads it.
abbrev pub meta_count : ℕ → ℕ
meta_count w = bit_and (w / 2 ^ flag_meta_shift) 0x3f

unfoldable pub sweep_key : Objects → Obj → ℕ
unfolding data_len flags_word
sweep_key s o = bit_or (data_len s o * 2 ^ 8 % 2 ^ 64) (meta_count (flags_word s o))

-- `HashMap::insert` of what a poisoned object was.
unfoldable pub note_kind : Objects → Obj → Objects
unfolding data_len flags_word data_word
note_kind s o =
    let was = bit_and (flags_word s o) (bit_not mark_bit) in
    let d0 = if ltb 0 (data_len s o) then data_word s o 0 else 0 in
    let d1 = if ltb 1 (data_len s o) then data_word s o 1 else 0 in
    record s { freed_kind = (o, was, d0, d1) ∷ s.freed_kind }

-- The unmarked branch of the loop: the object goes on the free list.
unfoldable pub release : Objects → Obj → Objects
unfolding sweep_key set_flags_word note_kind
release s o =
    let key = sweep_key s o in
    let s1 =
      if s.poison_freed
      then set_flags_word (note_kind s o) o poison
      else set_flags_word s o freed_word in
    record s1 { free = set_bucket s1.free key (o ∷ bucket s1.free key) }

-- The loop of `sweep` over the chain from `at`: the state, the chain kept and the count freed.
unfoldable pub sweep_loop : ℕ → Objects → Obj → Obj → ℕ → Option (Objects × Obj × ℕ)
unfolding is_marked clear_mark set_chain_next chain_next release
sweep_loop zero s at kept freed = if is_nil at then some (s, kept, freed) else none
sweep_loop (suc fuel) s at kept freed =
    let next = chain_next s at in
    let marked = is_marked s at in
    let s1 = if marked then set_chain_next (clear_mark s at) at kept else release s at in
    let more =
      sweep_loop fuel s1 next (if marked then at else kept) (if marked then freed else freed + 1) in
    if is_nil at then some (s, kept, freed) else more

unfoldable pub sweep : ℕ → Objects → Option (Objects × ℕ)
unfolding sweep_loop
sweep fuel s = do
  (s1, kept, freed) ← sweep_loop fuel s s.heap_chain nil 0
  some (record s1 { heap_chain = kept; live = (s1.live + 2 ^ 64 - freed) % 2 ^ 64 }, freed)

unfoldable pub free_count : FreeList → ℕ
free_count [] = 0
free_count ((key, objs) ∷ free) = length objs + free_count free
