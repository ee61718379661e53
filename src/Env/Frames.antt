-- ===== src/Env/Frames.antt =====
-- src/env.rs and src/eval.rs: new frames, the base of a root frame, and the binding of parameters.
-- The fuel is that of walks; `none` means that it ran out or that the arena is exhausted.
use x_engine_rust.Prelude.{
  ℕ, zero, suc, ◌+◌, true, false, not, ◌&&◌, Option, none, some, List, [], ◌∷◌, if◌then◌else◌,
  ◌>>=◌, get_or,
}
use x_engine_rust.Obj.{Obj, EnvId, nil, is_nil}
use x_engine_rust.Objects.{Objects, data_word, set_data, first, rest}
use x_engine_rust.Objects.Kinds.{flag_envh}
use x_engine_rust.Typed.Builtin.{alloc}
use x_engine_rust.Base.{global_tree_insert}
use x_engine_rust.Value.{is_cell}
use x_engine_rust.Value.Make.{pair}
use x_engine_rust.Env.{Envs, chain_slot, parent_slot, base_slot, bind}

unfoldable pub make_frame : ℕ → Envs → Objects → Obj → Obj → Option (EnvId × Envs × Objects)
unfolding alloc set_data
make_frame fuel e s parent base = do
  (h, s) ← alloc fuel s flag_envh 3
  let s = set_data (set_data (set_data s h chain_slot nil) h parent_slot parent) h base_slot base
  some (h, record e { made = e.made + 1 }, s)

unfoldable pub push_root : ℕ → Envs → Objects → Option (EnvId × Envs × Objects)
unfolding make_frame
push_root fuel e s = make_frame fuel e s nil nil

unfoldable pub push_frame : ℕ → Envs → Objects → EnvId → Option (EnvId × Envs × Objects)
unfolding make_frame data_word
push_frame fuel e s parent = make_frame fuel e s parent (data_word s parent base_slot)

-- The bindings of the chain from `at`, mirrored into the tree of the base.
unfoldable pub backfill : ℕ → Objects → Obj → Obj → Option Objects
unfolding first rest global_tree_insert
backfill zero s base at = elim (is_nil at) [ true ↦ some s | false ↦ none ]
backfill (suc fuel) s base at = elim (is_nil at) [
  | true ↦ some s
  | false ↦ do s1 ← global_tree_insert fuel s base (first s at); backfill fuel s1 base (rest s1 at)
]

unfoldable pub set_base : ℕ → Objects → EnvId → Obj → Option Objects
unfolding set_data data_word backfill
set_base fuel s id base =
    let s1 = set_data s id base_slot base in
    elim (is_nil (data_word s1 id parent_slot) && not (is_nil base)) [
      | true ↦ backfill fuel s1 base (data_word s1 id chain_slot)
      | false ↦ some s1
    ]

-- The values that are left as a list, from the last to the first.
unfoldable pub rest_list : ℕ → Objects → List Obj → Option (Obj × Objects)
unfolding pair
rest_list fuel s [] = some (nil, s)
rest_list fuel s (v ∷ vals) = do (out, s) ← rest_list fuel s vals; pair fuel s v out

-- A missing value is nil, a spare one is dropped, and the tail of the spine takes what is left.
unfoldable pub bind_params : ℕ → Envs → Objects → EnvId → Obj → List Obj → Option (Envs × Objects)
unfolding is_cell first rest bind rest_list
bind_params zero e s frame params vals = none
bind_params (suc fuel) e s frame params vals = elim (is_cell s params) [
  | true ↦ do
    (e, s) ← bind fuel e s frame (first s params) (get_or vals 0 nil)
    bind_params fuel e s frame (rest s params) (elim vals [ [] ↦ [] | v ∷ more ↦ more ])
  | false ↦ elim (is_nil params) [
    | true ↦ some (e, s)
    | false ↦ do (l, s) ← rest_list fuel s vals; bind fuel e s frame params l
  ]
]

-- The spine of an operative bound as it stands: a parameter past a dotted end takes what is left.
unfoldable pub bind_spine : ℕ → Envs → Objects → EnvId → Obj → Obj → Option (Envs × Objects)
unfolding is_cell first rest bind
bind_spine zero e s frame p a = none
bind_spine (suc fuel) e s frame p a = elim (is_cell s p) [
  | true ↦ do
    (e, s1) ← bind fuel e s frame (first s p) (if is_cell s a then first s a else a)
    bind_spine fuel e s1 frame (rest s1 p) (if is_cell s a then rest s a else nil)
  | false ↦ elim (is_nil p) [ true ↦ some (e, s) | false ↦ bind fuel e s frame p a ]
]
