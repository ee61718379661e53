-- ===== src/Base.antt =====
-- src/base.rs: a base as a spine of cells, its named slots, and the global tree that mirrors the
-- bindings of a root frame. `none` is an allocation or a walk that does not return.
pub mod Build
use x_engine_rust.Prelude.{
  List, [], ◌∷◌, ℕ, zero, suc, Option, none, some, ltb, ◌==◌, if◌then◌else◌, ◌>>=◌,
}
use x_engine_rust.Obj.{EnvId, Obj, Word, nil, is_nil}
use x_engine_rust.Objects.{Objects, data_word, set_data, first, rest}
use x_engine_rust.Value.{env_id, spair}

abbrev pub env_global_tree : ℕ
env_global_tree = 25

-- The cell at `n` steps of `rest`.
unfoldable pub cell : Objects → Obj → ℕ → Obj
unfolding rest
cell s base zero = base
cell s base (suc n) = cell s (rest s base) n

-- `slot` of the source, whose name the object slots have here; `get` is the same.
unfoldable pub get : Objects → Obj → ℕ → Obj
unfolding cell first
get s base n = first s (cell s base n)

unfoldable pub set_slot : Objects → Obj → ℕ → Obj → Objects
unfolding cell set_data
set_slot s base n v = set_data s (cell s base n) 0 v

unfoldable pub cell_int : Objects → Obj → ℕ → Word
unfolding get data_word
cell_int s base n = let c = get s base n in if is_nil c then 0 else data_word s c 0

unfoldable pub set_cell_int : Objects → Obj → ℕ → Word → Objects
unfolding get set_data
set_cell_int s base n v = let c = get s base n in if is_nil c then s else set_data s c 0 v

-- A node of the global tree: the binding, then the cell of its two children.
unfoldable pub tree_node : Objects → Obj → Option (Obj × Objects)
unfolding spair
tree_node s binding = do (kids, s1) ← spair s nil nil; spair s1 binding kids

-- The loop of `global_tree_insert` from the node `at`.
unfoldable pub insert_loop : ℕ → Objects → Obj → Obj → Obj → Option Objects
unfolding first rest tree_node set_data
insert_loop zero s binding key at = none
insert_loop (suc fuel) s binding key at =
    let b = first s at in
    let kids = rest s at in
    let left = ltb key (first s b) in
    let child = if left then first s kids else rest s kids in
    let deeper = insert_loop fuel s binding key child in
    if first s b == key
    then some s
    else if is_nil child
    then (do (n, s1) ← tree_node s binding; some (set_data s1 kids (if left then 0 else 1) n))
    else deeper

unfoldable pub global_tree_insert : ℕ → Objects → Obj → Obj → Option Objects
unfolding cell first tree_node set_data insert_loop
global_tree_insert fuel s base binding =
    let c = cell s base env_global_tree in
    let root = first s c in
    if is_nil root
    then (do (n, s1) ← tree_node s binding; some (set_data s1 c 0 n))
    else insert_loop fuel s binding (first s binding) root

abbrev pub prims_slot : ℕ
prims_slot = 0

abbrev pub env_slot : ℕ
env_slot = 7

unfoldable pub env_of : Objects → Obj → EnvId
unfolding get env_id
env_of s base = env_id s (get s base env_slot)

unfoldable pub catalogue_of : Objects → Obj → Obj
unfolding get
catalogue_of s base = get s base prims_slot

-- The nodes of the save stack, the tail expression, the tail environment and the error handler.
unfoldable pub state_nodes : Objects → Obj → List Obj
unfolding cell
state_nodes s base = cell s base 19 ∷ cell s base 20 ∷ cell s base 21 ∷ cell s base 23 ∷ []

-- The nodes of the line and of the count of meta words.
unfoldable pub loc_nodes : Objects → Obj → List Obj
unfolding cell
loc_nodes s base = cell s base 13 ∷ cell s base 6 ∷ []
