-- ===== src/Env.antt =====
-- src/env.rs: environments as holder objects with a chain of `((sym . val) . rest)` cells, and the
-- shadow maps of large frames. A walk is on fuel, and `none` means that it ran out or that an
-- allocation did not return; what the code answers is inside the `some`.
pub mod Index
pub mod Shadow
pub mod Frames
use x_engine_rust.Prelude.{
  ℕ, zero, suc, ◌+◌, ◌-◌, ◌*◌, ◌/◌, ◌%◌, ◌^◌, ◌≤◌, ◌<◌, bit_and, bit_or, bit_xor, min, max, ◌≡◌,
  refl, sym, ap, ap₂, ◌∙◌, ◌≢◌, ◌↔◌, ◌⊎◌, inl, inr, Bool, true, false, not, ◌&&◌, ◌||◌, Option,
  none, some, List, [], ◌∷◌, ◌++◌, map, reverse, arith, ltb, leb, ◌==◌, if◌then◌else◌, ◌>>=◌,
  ltb→lt, lt→ltb, le→ltb_false, ltb_false→le, le→leb, ==_iff, ==_refl, ne→==_false, ==_false→ne,
  Bool-cases, Option-cases, length, get_or, set, replicate, length-append, length-set,
  length-replicate, get_or-set_self, get_or-set_ne, get_or-beyond, get_or-append_left,
  get_or-append_right,
}
use x_engine_rust.Obj.{
  Obj, Addr, Word, Flags, EnvId, IsWord, bit_not, word_bytes, nil, is_nil, as_i64, from_i64, offset,
  plus, word_index, byte_in_word, word_base,
}
use x_engine_rust.Objects.{
  Objects, FreeList, bucket, set_bucket, with_heap, header_slot, flags_word, set_flags_word,
  kind_bits, flags, is, type_of_word, set_type_word, slot, data_word, set_data, data_len,
  chain_next, set_chain_next, first, rest, meta_stamped, meta_slot, meta_i, set_meta_i, stamp_meta,
  meta_extra, free_key, take_free, write_header, meta_bits, clear_data, reuse, push_zeros, grow,
  lay_out, count_alloc, slot_heap, slot_type, slot_flags, slot_len, meta_len, flag_meta_bit,
  flag_meta_shift, flag_magic_bit,
}
use x_engine_rust.Value.{spair}
use x_engine_rust.Base.{global_tree_insert}

abbrev pub chain_slot : ℕ
chain_slot = 0

abbrev pub parent_slot : ℕ
parent_slot = 1

abbrev pub base_slot : ℕ
base_slot = 2

abbrev pub index_at : ℕ
index_at = 16

-- A `HashMap` as an association list, whose first entry of a key counts.
abbrev pub Map : Type 0 → Type 0
Map A = List (ℕ × A)

abbrev pub map_get : {A : Type 0} → Map A → ℕ → Option A
map_get [] key = none
map_get ((k, a) ∷ m) key = if k == key then some a else map_get m key

-- `HashMap::insert`.
abbrev pub map_insert : {A : Type 0} → Map A → ℕ → A → Map A
map_insert [] key a = (key, a) ∷ []
map_insert ((k, old) ∷ m) key a = if k == key then (k, a) ∷ m else (k, old) ∷ map_insert m key a

-- `entry(key).or_insert(a)`.
abbrev pub map_or_insert : {A : Type 0} → Map A → ℕ → A → Map A
map_or_insert [] key a = (key, a) ∷ []
map_or_insert ((k, old) ∷ m) key a = (k, old) ∷ (if k == key then m else map_or_insert m key a)

pub record Envs : Type 0 where
  pub index : Map (Map Obj)
  pub made : ℕ

unfoldable pub new : Envs
new = record { index = []; made = 0 }

unfoldable pub base_of : Objects → EnvId → Obj
unfolding data_word
base_of s id = data_word s id base_slot

unfoldable pub parent_of : Objects → EnvId → Option EnvId
unfolding data_word
parent_of s id = let p = data_word s id parent_slot in if is_nil p then none else some p

-- The loop of `chain_len`.
unfoldable pub chain_len : ℕ → Objects → Obj → Option ℕ
unfolding rest
chain_len zero s at = if is_nil at then some 0 else none
chain_len (suc fuel) s at =
    let more = chain_len fuel s (rest s at) in
    if is_nil at then some 0 else (do n ← more; some (n + 1))

-- The scan of `find_in_frame` from the cell `at`.
unfoldable pub scan : ℕ → Objects → Obj → Obj → Option (Option Obj)
unfolding first rest
scan zero s at name = if is_nil at then some none else none
scan (suc fuel) s at name =
    let p = first s at in
    let more = scan fuel s (rest s at) name in
    if is_nil at then some none else if first s p == name then some (some p) else more

unfoldable pub find_in_frame : ℕ → Envs → Objects → EnvId → Obj → Option (Option Obj)
unfolding scan data_word
find_in_frame fuel e s env name = elim (map_get e.index env) [
  | some m ↦ some (map_get m name)
  | none ↦ scan fuel s (data_word s env chain_slot) name
]

-- The walk over the frames out from `at`, at most `frames` of them: the cell found.
unfoldable pub find : ℕ → ℕ → Envs → Objects → EnvId → Obj → Option (Option Obj)
unfolding find_in_frame parent_of
find zero fuel e s at name = none
find (suc frames) fuel e s at name = do
  r ← find_in_frame fuel e s at name
  elim r [
    | some p ↦ some (some p)
    | none ↦ elim (parent_of s at) [ some up ↦ find frames fuel e s up name | none ↦ some none ]
  ]

unfoldable pub lookup : ℕ → ℕ → Envs → Objects → EnvId → Obj → Option (Option Obj)
unfolding find rest
lookup frames fuel e s env name = do
  r ← find frames fuel e s env name
  elim r [ some p ↦ some (some (rest s p)) | none ↦ some none ]

unfoldable pub set_existing : ℕ → ℕ → Envs → Objects → EnvId → Obj → Word → Option (Bool × Objects)
unfolding find set_data
set_existing frames fuel e s env name value = do
  r ← find frames fuel e s env name
  elim r [ some p ↦ some (true, set_data s p 1 value) | none ↦ some (false, s) ]

-- The shadow map of a chain, on top of `m`.
unfoldable pub index_loop : ℕ → Objects → Obj → Map Obj → Option (Map Obj)
unfolding first rest
index_loop zero s at m = if is_nil at then some m else none
index_loop (suc fuel) s at m =
    let p = first s at in
    let more = index_loop fuel s (rest s at) (map_or_insert m (first s p) p) in
    if is_nil at then some m else more

-- A binding of a frame that a base stands behind, mirrored into its global tree.
unfoldable pub mirror : ℕ → Objects → EnvId → Obj → Option Objects
unfolding data_word global_tree_insert
mirror fuel s h pair =
    let base = data_word s h base_slot in
    if is_nil (data_word s h parent_slot) && not (is_nil base)
    then global_tree_insert fuel s base pair
    else some s

-- The shadow map after a new binding: grown if it is there, built once the chain is long.
unfoldable pub reindex : ℕ → Envs → Objects → EnvId → Obj → Obj → Option Envs
unfolding chain_len index_loop data_word
reindex fuel e s h name pair = elim (map_get e.index h) [
  | some m ↦ some (record e { index = map_insert e.index h (map_insert m name pair) })
  | none ↦ do
    n ← chain_len fuel s (data_word s h chain_slot)
    if ltb index_at n
        then (do
          m ← index_loop fuel s (data_word s h chain_slot) []
          some (record e { index = map_insert e.index h m }))
        else some e
]

unfoldable pub bind : ℕ → Envs → Objects → EnvId → Obj → Obj → Option (Envs × Objects)
unfolding find_in_frame set_data spair data_word mirror reindex
bind fuel e s h name value = do
  r ← find_in_frame fuel e s h name
  elim r [
    | some p ↦ some (e, set_data s p 1 value)
    | none ↦ do
      (pair, s1) ← spair s name value
      (head, s2) ← spair s1 pair (data_word s1 h chain_slot)
      let s3 = set_data s2 h chain_slot head
      s4 ← mirror fuel s3 h pair
      e1 ← reindex fuel e s4 h name pair
      some (e1, s4)
  ]
