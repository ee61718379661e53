-- ===== src/Engine/Balance/Leaves.antt =====
-- src/prim.rs and src/prims/: what the macros make of a leaf is balanced.
use x_engine_rust.Prelude.{ℕ, Bool, Option, List, [], ◌∷◌, reverse}
use x_engine_rust.Prelude.Int.{ℤ}
use x_engine_rust.Obj.{Obj, EnvId, Flags}
use x_engine_rust.Objects.{Objects}
use x_engine_rust.Objects.Kinds.{stamped_kinds}
use Prim.Native.String.{String}
use x_engine_rust.Engine.{Text, M, makes, Host, Door}
use x_engine_rust.Engine.Operators.{tower2, tower_pred, int2, int1, subtract_vals, subtract}
use x_engine_rust.Engine.Bases.{
  file_kinds, file_fresh_builtin_types, bind_shared, bind_text, bind_each, bind_machine, make_base,
  base_make, base_eval, base_bind,
}
use x_engine_rust.Engine.Rows.{
  uniform_value, uniform_engine, iter_peek, iter_next, iter_empty, iter_step_prim, type_of_prim,
  make_instance, obj_make, heap_collect, heap_count_prim, heap_part, heap_pin, heap_list,
  alloc_limit_prim,
}
use x_engine_rust.Engine.Tables.{heap_check}
use x_engine_rust.Engine.Balance.{
  Balanced, Balanced-modify, Balanced-bind, Balanced-binds, Balanced-makes,
}
use x_engine_rust.Engine.Balance.Brackets.{Balanced-in_base}
use x_engine_rust.Engine.Balance.Doors.{
  steps, IsBalanced, call_with_values-Balanced, eargs_for-Balanced, eargs-Balanced,
}
use x_engine_rust.Engine.Balance.Rows.{
  IsStep, eval-Balanced, op_try-Balanced, raw2-Balanced, collect-Balanced,
}

-- The leaf of a row with the engine.
pub record IsLeaf (f : Host → Door → Obj → List Obj → M Obj) : Type 0 where
  pub at :
      (h : Host) (d : Door)
      → IsBalanced d
      → (base : Obj) (vals : List Obj) → Balanced (f h d base vals)

pub tower2-IsStep : (name : Text) (f : ℤ → ℤ → ℤ) → IsStep (tower2 name f)
unfolding tower2
tower2-IsStep name f = record {
  at = λ h d b callee args env.
      search (steps, eargs_for-Balanced d b, op_try-Balanced h d b, raw2-Balanced h d b) depth 8;
}

pub tower_pred-IsStep : (name : Text) (f : ℤ → ℤ → Bool) → IsStep (tower_pred name f)
unfolding tower_pred
tower_pred-IsStep name f = record {
  at = λ h d b callee args env.
      search (steps, eargs_for-Balanced d b, op_try-Balanced h d b) depth 8;
}

pub int2-IsStep : (name : Text) (f : ℤ → ℤ → ℤ) → IsStep (int2 name f)
unfolding int2
int2-IsStep name f = record {
  at = λ h d b callee args env. search (steps, eargs_for-Balanced d b, raw2-Balanced h d b);
}

pub int1-IsStep : (name : Text) (f : ℤ → ℤ) → IsStep (int1 name f)
unfolding int1
int1-IsStep name f = record {
  at = λ h d b callee args env. search (steps, eargs_for-Balanced d b) depth 8;
}

subtract_vals-Balanced :
    (h : Host) (d : Door) → IsBalanced d → (vals : List Obj) → Balanced (subtract_vals h d vals)
unfolding subtract_vals
subtract_vals-Balanced h d b [] = search steps
subtract_vals-Balanced h d b (x ∷ []) = search steps
subtract_vals-Balanced h d b (x ∷ y ∷ more) =
    search (steps, op_try-Balanced h d b, raw2-Balanced h d b) depth 8

pub subtract-IsStep : IsStep subtract
unfolding subtract
subtract-IsStep = record {
  at = λ h d b callee args env. search (steps, eargs-Balanced d b, subtract_vals-Balanced h d b);
}

pub uniform_value-IsStep :
    (n : ℕ) (leaf : ℕ → Objects → List Obj → Option (Obj × Objects)) → IsStep (uniform_value n leaf)
unfolding uniform_value
uniform_value-IsStep n leaf = record {
  at = λ h d b callee args env. search (steps, eargs_for-Balanced d b);
}

pub uniform_engine-IsStep :
    (n : ℕ) (leaf : Host → Door → Obj → List Obj → M Obj)
    → IsLeaf leaf
    → IsStep (uniform_engine n leaf)
unfolding uniform_engine
uniform_engine-IsStep n leaf z = record {
  at = λ h d b callee args env. search (steps, eargs_for-Balanced d b, z.at h d b) depth 8;
}

file_kinds-Balanced :
    (fuel : ℕ) (base : Obj) (kinds : List (Flags × String)) → Balanced (file_kinds fuel base kinds)
unfolding file_kinds
file_kinds-Balanced fuel base [] = search steps
file_kinds-Balanced fuel base ((f, name) ∷ kinds) =
    Balanced-bind _ _ (Balanced-makes _) (λ t. file_kinds-Balanced fuel base kinds)

file_fresh-Balanced : (fuel : ℕ) (base : Obj) → Balanced (file_fresh_builtin_types fuel base)
unfolding file_fresh_builtin_types
file_fresh-Balanced fuel base = file_kinds-Balanced fuel base (reverse stamped_kinds)

bind_shared-Balanced :
    (fuel : ℕ) (env : EnvId) (name : Text) (o : Obj) → Balanced (bind_shared fuel env name o)
unfolding bind_shared
bind_shared-Balanced fuel env name o = search steps

bind_text-Balanced :
    (fuel : ℕ) (env : EnvId) (name text : Text) → Balanced (bind_text fuel env name text)
unfolding bind_text
bind_text-Balanced fuel env name text = search steps

bind_each-Balanced :
    (fuel : ℕ) (env : EnvId) (rows : List (Obj × Obj)) → Balanced (bind_each fuel env rows)
unfolding bind_each
bind_each-Balanced fuel env [] = search steps
bind_each-Balanced fuel env ((name, o) ∷ rows) =
    Balanced-bind _ _ (Balanced-binds _) (λ u. bind_each-Balanced fuel env rows)

bind_machine-Balanced : (h : Host) (fuel : ℕ) (env : EnvId) → Balanced (bind_machine h fuel env)
unfolding bind_machine
bind_machine-Balanced h fuel env =
    search (steps, bind_shared-Balanced, bind_text-Balanced, bind_each-Balanced) depth 16 fits 3000

make_base-Balanced : (h : Host) (fuel : ℕ) → Balanced (make_base h fuel)
unfolding make_base
make_base-Balanced h fuel =
    search (steps, Balanced-modify, bind_machine-Balanced, file_fresh-Balanced) depth 14 fits 3000

pub base_make-IsStep : IsStep base_make
unfolding base_make
base_make-IsStep = record {
  at = λ h d b callee args env. search (steps, eargs_for-Balanced d b, make_base-Balanced);
}

pub base_eval-IsStep : IsStep base_eval
unfolding base_eval
base_eval-IsStep = record {
  at = λ h d b callee args env.
      search (steps, eargs_for-Balanced d b, Balanced-in_base, eval-Balanced h d b);
}

pub base_bind-IsStep : IsStep base_bind
unfolding base_bind
base_bind-IsStep = record {
  at = λ h d b callee args env. search (steps, eargs_for-Balanced d b) depth 8;
}

iter_peek-Balanced : (d : Door) → IsBalanced d → (it : Obj) → Balanced (iter_peek d it)
unfolding iter_peek
iter_peek-Balanced d b it = search (steps, call_with_values-Balanced d b) depth 8

pub iter_next-IsLeaf : IsLeaf iter_next
unfolding iter_next
iter_next-IsLeaf = record { at = λ h d b base vals. search (steps, iter_peek-Balanced d b) }

pub iter_empty-IsLeaf : IsLeaf iter_empty
unfolding iter_empty
iter_empty-IsLeaf = record { at = λ h d b base vals. search (steps, iter_peek-Balanced d b) }

pub iter_step-IsLeaf : IsLeaf iter_step_prim
unfolding iter_step_prim
iter_step-IsLeaf = record { at = λ h d b base vals. search (steps, iter_peek-Balanced d b) depth 8 }

pub type_of-IsLeaf : IsLeaf type_of_prim
unfolding type_of_prim
type_of-IsLeaf = record { at = λ h d b base vals. search steps }

pub make_instance-IsLeaf : IsLeaf make_instance
unfolding make_instance
make_instance-IsLeaf = record { at = λ h d b base vals. search steps depth 8 }

pub obj_make-IsLeaf : IsLeaf obj_make
unfolding obj_make
obj_make-IsLeaf = record { at = λ h d b base vals. search steps depth 8 }

pub heap_collect-IsLeaf : IsLeaf heap_collect
unfolding heap_collect
heap_collect-IsLeaf = record { at = λ h d b base vals. search (steps, collect-Balanced h d b) }

pub heap_count-IsLeaf : IsLeaf heap_count_prim
unfolding heap_count_prim
heap_count-IsLeaf = record { at = λ h d b base vals. search steps }

pub heap_part-IsLeaf : IsLeaf heap_part
unfolding heap_part
heap_part-IsLeaf = record { at = λ h d b base vals. search steps }

pub heap_pin-IsLeaf : IsLeaf heap_pin
unfolding heap_pin
heap_pin-IsLeaf = record { at = λ h d b base vals. search steps }

pub heap_check-IsLeaf : IsLeaf heap_check
unfolding heap_check
heap_check-IsLeaf = record { at = λ h d b base vals. search steps }

pub heap_list-IsLeaf : (slot : ℕ) → IsLeaf (heap_list slot)
unfolding heap_list
heap_list-IsLeaf slot = record { at = λ h d b base vals. search steps }

pub alloc_limit-IsLeaf : IsLeaf alloc_limit_prim
unfolding alloc_limit_prim
alloc_limit-IsLeaf = record { at = λ h d b base vals. search (steps, Balanced-modify) depth 8 }

pub makes-IsLeaf :
    (f : Host → ℕ → Objects → List Obj → Option (Obj × Objects))
    → IsLeaf (λ h d base vals. makes (λ s. f h d.fuel s vals))
makes-IsLeaf f = record { at = λ h d b base vals. Balanced-makes _ }
