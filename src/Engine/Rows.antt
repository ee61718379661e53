-- ===== src/Engine/Rows.antt =====
-- src/prim.rs, src/prims/iter.rs, src/prims/obj.rs and src/prims/heap.rs: the rows that the macros
-- make of a leaf, and the instructions that drive an iterator, make a type or collect.
use x_engine_rust.Prelude.{
  ℕ, not, ◌&&◌, Option, none, some, List, [], ◌∷◌, ◌==◌, if◌then◌else◌, get_or,
}
use x_engine_rust.Prelude.Int.{pos, pos_part, ltb_ℤ}
use x_engine_rust.Obj.{Obj, nil, is_nil}
use x_engine_rust.Objects.{Objects, set_data, first, rest}
use x_engine_rust.Value.{as_int, truth}
use x_engine_rust.Value.Make.{iter, pair, instance_of}
use x_engine_rust.Typed.{iter_step, iter_state}
use x_engine_rust.Typed.Builtin.{type_of}
use x_engine_rust.Base.{set_slot}
use x_engine_rust.Base.Build.{slot_push}
use x_engine_rust.Instructions.Counts.{heap_count}
use x_engine_rust.Engine.{
  Engine, M, pure, gets, reads, walks, makes, writes, modify, ◌>>=◌, ◌>>◌, on_option, Host, Door,
  PrimFn,
}
use x_engine_rust.Engine.Apply.{root_env, call_with_values, eargs_for}
use x_engine_rust.Engine.Gc.{collect}
use x_engine_rust.Engine.Bases.{resolve_type_in}

-- `uniform_value!`: the leaf has the store and the values of the operands.
unfoldable pub uniform_value : ℕ → (ℕ → Objects → List Obj → Option (Obj × Objects)) → PrimFn
unfolding eargs_for makes ◌>>=◌
uniform_value n leaf h d callee args env = do
  vals ← eargs_for d callee args env n
  makes (λ s. leaf d.fuel s vals)

-- `uniform_engine!`: the leaf has the engine and the base that runs.
unfoldable pub uniform_engine : ℕ → (Host → Door → Obj → List Obj → M Obj) → PrimFn
unfolding eargs_for gets ◌>>=◌
uniform_engine n leaf h d callee args env = do
  vals ← eargs_for d callee args env n
  base ← gets (λ (e : Engine). e.base)
  leaf h d base vals

abbrev pub arg : List Obj → ℕ → Obj
arg vals i = get_or vals i nil

-- One step of an iterator: a value and the next state, or the end.
unfoldable pub iter_peek : Door → Obj → M (Option (Obj × Obj))
unfolding reads iter_step iter_state root_env call_with_values first rest ◌>>=◌
iter_peek d it = do
  f ← reads (λ s. iter_step s it)
  st ← reads (λ s. iter_state s it)
  env ← root_env
  r ← call_with_values d f (st ∷ []) env
  reads (λ s. if r == nil then none else some (first s r, rest s r))

unfoldable pub iter_next : Host → Door → Obj → List Obj → M Obj
unfolding iter_peek on_option writes set_data ◌>>=◌
iter_next h d base vals = do
  r ← iter_peek d (arg vals 0)
  on_option r (pure nil) (λ p. writes (λ s. set_data s (arg vals 0) 1 p.1) >> pure p.0)

unfoldable pub iter_empty : Host → Door → Obj → List Obj → M Obj
unfolding iter_peek on_option reads truth ◌>>=◌
iter_empty h d base vals = do
  r ← iter_peek d (arg vals 0)
  on_option r (reads (λ s. s.true_obj)) (λ p. reads (λ s. s.false_obj))

unfoldable pub iter_step_prim : Host → Door → Obj → List Obj → M Obj
unfolding iter_peek on_option reads iter_step makes iter pair ◌>>=◌
iter_step_prim h d base vals = do
  r ← iter_peek d (arg vals 0)
  on_option r (pure nil) (λ p. do
    f ← reads (λ s. iter_step s (arg vals 0))
    nit ← makes (λ s. iter d.fuel s f p.1)
    makes (λ s. pair d.fuel s p.0 nit))

unfoldable pub type_of_prim : Host → Door → Obj → List Obj → M Obj
unfolding makes type_of
type_of_prim h d base vals = makes (λ s. type_of d.fuel s (arg vals 0))

abbrev is_type : Obj → Option (Obj × Objects) → Option (Obj × Objects)
is_type t none = none
is_type t (some (got, s)) = some (truth s (not (is_nil t) && (got == t)), s)

unfoldable pub type_is : ℕ → Objects → List Obj → Option (Obj × Objects)
unfolding type_of truth
type_is fuel s vals = is_type (arg vals 1) (type_of fuel s (arg vals 0))

unfoldable pub make_instance : Host → Door → Obj → List Obj → M Obj
unfolding walks resolve_type_in makes instance_of writes set_data ◌>>=◌
make_instance h d base vals = do
  ty ← walks (λ s. resolve_type_in d.fuel s base (arg vals 0))
  o ← makes (λ s. instance_of d.fuel s ty 2)
  writes (λ s. set_data s o 0 (arg vals 1))
  pure o

unfoldable pub obj_make : Host → Door → Obj → List Obj → M Obj
unfolding gets walks resolve_type_in makes instance_of as_int ◌>>=◌
obj_make h d base vals = do
  own ← gets (λ (e : Engine). e.base)
  ty ← walks (λ s. resolve_type_in d.fuel s own (arg vals 0))
  makes (λ s. instance_of d.fuel s ty (pos_part (as_int s (arg vals 1))))

unfoldable pub heap_collect : Host → Door → Obj → List Obj → M Obj
unfolding collect ◌>>=◌
heap_collect h d base vals = do collect d; pure nil

unfoldable pub heap_count_prim : Host → Door → Obj → List Obj → M Obj
unfolding makes heap_count
heap_count_prim h d base vals = makes (λ s. heap_count d.fuel s)

-- `mark` and `sweep`, which are parts of the one collection.
unfoldable pub heap_part : Host → Door → Obj → List Obj → M Obj
heap_part h d base vals = pure nil

unfoldable pub heap_pin : Host → Door → Obj → List Obj → M Obj
heap_pin h d base vals = pure (arg vals 0)

-- An operand on a list of the base: `mark_hook`, `free_hook` and `mark_root`.
unfoldable pub heap_list : ℕ → Host → Door → Obj → List Obj → M Obj
unfolding makes slot_push ◌>>=◌
heap_list slot h d base vals = do
  makes (λ s. slot_push d.fuel s base slot (arg vals 0))
  pure (arg vals 0)

abbrev pub alloc_limit_slot : ℕ
alloc_limit_slot = 11

unfoldable pub alloc_limit_prim : Host → Door → Obj → List Obj → M Obj
unfolding reads as_int writes set_slot modify ◌>>=◌
alloc_limit_prim h d base vals = do
  n ← reads (λ s. as_int s (arg vals 0))
  writes (λ s. set_slot s base alloc_limit_slot (arg vals 0))
  modify (λ (e : Engine). record e {
    alloc_limit = if ltb_ℤ (pos 0) n then some (pos_part n) else none;
  })
  pure nil
