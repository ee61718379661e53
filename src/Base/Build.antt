-- ===== src/Base/Build.antt =====
-- src/base.rs: the construction of a base, and the lists in its slots. The fuel is that of the walk
-- of the type-alist.
use x_engine_rust.Prelude.{ℕ, zero, suc, ◌+◌, Option, some, ◌>>=◌}
use x_engine_rust.Prelude.Int.{pos}
use x_engine_rust.Obj.{Obj, Word, EnvId, nil}
use x_engine_rust.Objects.{Objects, set_type_word, slot, set_data, first, rest}
use x_engine_rust.Objects.Kinds.{flag_bufmarks}
use x_engine_rust.Typed.Builtin.{alloc}
use x_engine_rust.Value.{spair}
use x_engine_rust.Value.Text.{error_atom}
use x_engine_rust.Value.Make.{int, env_obj, base_label, pair}
use x_engine_rust.Base.{get, set_slot, prims_slot, env_slot}

-- A cell whose first word is the number itself.
unfoldable pub raw_cell : ℕ → Objects → Word → Option (Obj × Objects)
unfolding alloc set_data
raw_cell fuel s n = do (cell, s1) ← alloc fuel s flag_bufmarks 2; some (cell, set_data s1 cell 0 n)

-- The loop of `cell_spine` onto `spine`.
unfoldable pub cell_spine : ℕ → Objects → ℕ → Obj → Option (Obj × Objects)
unfolding raw_cell spair
cell_spine fuel s zero spine = some (spine, s)
cell_spine fuel s (suc n) spine = do
  (cell, s) ← raw_cell fuel s 0
  (spine, s) ← spair s cell spine
  cell_spine fuel s n spine

unfoldable pub obj_cell_spine : Objects → ℕ → Obj → Option (Obj × Objects)
unfolding spair
obj_cell_spine s zero spine = some (spine, s)
obj_cell_spine s (suc n) spine = do
  (cell, s) ← spair s nil nil
  (spine, s) ← spair s cell spine
  obj_cell_spine s n spine

abbrev pub routes_len : ℕ
routes_len = 26

-- The empty spine of `left` slots onto `spine`.
unfoldable pub nil_spine : Objects → ℕ → Obj → Option (Obj × Objects)
unfolding spair
nil_spine s zero spine = some (spine, s)
nil_spine s (suc left) spine = do (spine, s) ← spair s nil spine; nil_spine s left spine

-- A raw cell in a slot.
unfoldable pub raw_slot : ℕ → Objects → Obj → ℕ → Word → Option Objects
unfolding raw_cell set_slot
raw_slot fuel s base slot n = do (c, s) ← raw_cell fuel s n; some (set_slot s base slot c)

-- The descriptors `fd`, `fd + 1`, … in the cells of the files row from `at`.
unfoldable pub file_cells : ℕ → Objects → ℕ → ℕ → Obj → Option Objects
unfolding first rest int set_data
file_cells fuel s zero fd at = some s
file_cells fuel s (suc left) fd at = do
  let c = first s at
  (v, s) ← int fuel s (pos fd)
  let s = set_data s c 0 v
  file_cells fuel s left (fd + 1) (rest s at)

-- A holder of a singleton in a slot.
unfoldable pub holder_slot : Objects → Obj → ℕ → Obj → Option Objects
unfolding spair set_slot
holder_slot s base slot o = do (h, s) ← spair s o nil; some (set_slot s base slot h)

unfoldable pub build : ℕ → Objects → Obj → EnvId → Option (Obj × Objects)
unfolding nil_spine base_label set_type_word error_atom set_slot env_obj raw_slot obj_cell_spine
    file_cells cell_spine holder_slot
build fuel s catalogue env = do
  (spine, s) ← nil_spine s routes_len nil
  (label, s) ← base_label s
  let s = set_type_word s spine label
  (scratch, s) ← error_atom s
  let s = set_slot s spine 2 scratch
  (e, s) ← env_obj fuel s env
  let s = set_slot (set_slot s spine prims_slot catalogue) spine env_slot e
  s ← raw_slot fuel s spine 13 1
  s ← raw_slot fuel s spine 6 0
  s ← raw_slot fuel s spine 3 0
  s ← raw_slot fuel s spine 4 0
  (files, s) ← obj_cell_spine s 3 nil
  s ← file_cells fuel s 3 0 files
  let s = set_slot s spine 14 files
  (profile, s) ← cell_spine fuel s 9 nil
  let s = set_slot s spine 15 profile
  s ← holder_slot s spine 16 s.false_obj
  s ← holder_slot s spine 24 s.true_obj
  s ← raw_slot fuel s spine 17 0
  some (spine, set_slot s spine 18 nil)

-- `push` of the source: a pair onto the list in a slot.
unfoldable pub slot_push : ℕ → Objects → Obj → ℕ → Obj → Option (Obj × Objects)
unfolding get pair set_slot
slot_push fuel s base n v = do
  (c, s1) ← pair fuel s v (get s base n)
  some (c, set_slot s1 base n c)
