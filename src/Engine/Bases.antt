-- ===== src/Engine/Bases.antt =====
-- src/engine.rs and src/prims/base.rs: bases as contexts of their own, the run of an action inside
-- of one, and the types that a handle names.
use x_engine_rust.Prelude.{
  ℕ, zero, suc, not, ◌&&◌, Option, none, some, List, [], ◌∷◌, ◌++◌, length, reverse, ◌-◌, ◌==◌,
  if◌then◌else◌, get_or,
}
use x_engine_rust.Obj.{Obj, Flags, EnvId, nil, is_nil}
use x_engine_rust.Objects.{Objects, first, rest}
use x_engine_rust.Objects.Kinds.{codes, stamped_kinds}
use x_engine_rust.Symbols.{Symbols}
use x_engine_rust.Value.{is_cell, is_handle, spair}
use x_engine_rust.Value.Make.{sym_shared, str_from_bytes}
use x_engine_rust.Base.{get, set_slot, state_nodes, loc_nodes, env_of}
use x_engine_rust.Base.Build.{build}
use x_engine_rust.Env.{Map, map_get, map_insert, bind}
use x_engine_rust.Env.Frames.{push_root, set_base}
use x_engine_rust.Typed.{handle_of_type}
use x_engine_rust.Typed.Builtin.{type_alist, builtin_type_in}
use x_engine_rust.Engine.{
  Text, Engine, M, pure, of, gets, reads, makes, frames, attempt, writes, modify, updates, binds,
  ◌>>=◌, ◌>>◌, take, Host, PrimFn,
}
use x_engine_rust.Engine.Apply.{eargs_for}
use Prim.Native.String.{String}

-- `HashMap::remove` with the answer dropped.
abbrev pub map_remove : {A : Type 0} → Map A → ℕ → Map A
map_remove [] key = []
map_remove ((k, a) ∷ m) key =
    let rest = map_remove m key in if k == key then rest else (k, a) ∷ rest

abbrev or_empty : Option Symbols → Symbols
or_empty none = []
or_empty (some t) = t

-- The store with the nodes and the table of a base.
unfoldable pub switch : Objects → Obj → Symbols → Objects
unfolding state_nodes loc_nodes
switch s base table = record s {
  symbols = table;
  base = base;
  state_nodes = state_nodes s base;
  line_node = get_or (loc_nodes s base) 0 nil;
  meta_node = get_or (loc_nodes s base) 1 nil;
}

unfoldable pub enter_base : Obj → Engine → Engine
unfolding switch
enter_base base e = record e {
  objects = switch e.objects base (or_empty (map_get e.base_syms base));
  base_syms = map_remove e.base_syms base;
  base_stack = e.base_stack ++ e.base ∷ [];
  base = base;
}

-- What was displaced comes back, and the table of the base is parked.
unfoldable pub leave_base : Obj → Engine → Engine → Engine
leave_base base before e =
    let s1 : Objects = record e.objects {
      base = before.base;
      state_nodes = before.objects.state_nodes;
      line_node = before.objects.line_node;
      meta_node = before.objects.meta_node;
      symbols = before.objects.symbols;
    } in
    record e {
      base = before.base;
      objects = s1;
      base_stack = take e.base_stack (length e.base_stack - 1);
      base_syms = map_insert e.base_syms base e.objects.symbols;
    }

unfoldable pub in_base : {A : Type 0} → Obj → M A → M A
unfolding gets modify enter_base leave_base attempt ◌>>=◌
in_base base m = do
  before ← gets (λ (e : Engine). e)
  if base == before.base
      then m
      else (do modify (enter_base base); out ← attempt m; modify (leave_base base before); of out)

-- The walk of `resolve_type_in` from the cell `at`.
unfoldable pub resolve_loop : ℕ → Objects → Obj → Obj → Option Obj
unfolding is_cell first rest
resolve_loop zero s at t = if is_cell s at then none else some t
resolve_loop (suc fuel) s at t =
    let entry = first s at in
    let more = resolve_loop fuel s (rest s at) t in
    if not (is_cell s at)
    then some t
    else if is_cell s entry && (first s entry == t)
    then some (rest s entry)
    else more

unfoldable pub resolve_type_in : ℕ → Objects → Obj → Obj → Option Obj
unfolding is_handle resolve_loop get
resolve_type_in fuel s base t =
    if is_handle s t then resolve_loop fuel s (get s base type_alist) t else some t

-- A type at the head of the type-alist, under its handle.
unfoldable pub file_type_in : Obj → Obj → M (Unit {0})
unfolding reads handle_of_type makes spair get writes set_slot ◌>>=◌
file_type_in base t = do
  handle ← reads (λ s. handle_of_type s t)
  entry ← makes (λ s. spair s handle t)
  head ← reads (λ s. get s base type_alist)
  cell ← makes (λ s. spair s entry head)
  writes (λ s. set_slot s base type_alist cell)

-- The types of the kinds in the order given.
unfoldable pub file_kinds : ℕ → Obj → List (Flags × String) → M (Unit {0})
unfolding makes builtin_type_in ◌>>=◌
file_kinds fuel base [] = pure tt
file_kinds fuel base ((f, name) ∷ kinds) = do
  makes (λ s. builtin_type_in fuel s base f)
  file_kinds fuel base kinds

unfoldable pub file_fresh_builtin_types : ℕ → Obj → M (Unit {0})
unfolding file_kinds
file_fresh_builtin_types fuel base = file_kinds fuel base (reverse stamped_kinds)

-- A name of the instruction set, bound in a frame to an object.
unfoldable pub bind_shared : ℕ → EnvId → Text → Obj → M (Unit {0})
unfolding makes sym_shared binds bind ◌>>=◌
bind_shared fuel env name o = do
  sym ← makes (λ s. sym_shared fuel s name)
  binds (λ envs s. bind fuel envs s env sym o)

unfoldable pub bind_text : ℕ → EnvId → Text → Text → M (Unit {0})
unfolding makes sym_shared str_from_bytes binds bind ◌>>=◌
bind_text fuel env name text = do
  sym ← makes (λ s. sym_shared fuel s name)
  v ← makes (λ s. str_from_bytes fuel s text)
  binds (λ envs s. bind fuel envs s env sym v)

unfoldable pub bind_each : ℕ → EnvId → List (Obj × Obj) → M (Unit {0})
unfolding binds bind ◌>>=◌
bind_each fuel env [] = pure tt
bind_each fuel env ((name, o) ∷ rows) = do
  binds (λ envs s. bind fuel envs s env name o)
  bind_each fuel env rows

abbrev pub sigint_slot : ℕ
sigint_slot = 22

-- The values that every base binds, and the instructions.
unfoldable pub bind_machine : Host → ℕ → EnvId → M (Unit {0})
unfolding makes sym_shared binds bind reads bind_shared bind_text gets bind_each ◌>>=◌
bind_machine h fuel env = do
  t ← makes (λ s. sym_shared fuel s (codes "#t"))
  binds (λ envs s. bind fuel envs s env t t)
  f ← makes (λ s. sym_shared fuel s (codes "#f"))
  binds (λ envs s. bind fuel envs s env f s.false_obj)
  bind_text fuel env (codes "x-machine") h.machine
  bind_text fuel env (codes "x-version") (codes "0.1.0")
  bind_text fuel env (codes "x-release") h.release
  eof ← gets (λ (e : Engine). e.token_eof)
  flag ← gets (λ (e : Engine). e.sigint_flag)
  bind_shared fuel env (codes "%token-eof") eof
  bind_shared fuel env (codes "%sigint-flag") flag
  rows ← gets (λ (e : Engine). e.prim_bindings)
  bind_each fuel env rows

unfoldable pub make_base : Host → ℕ → M Obj
unfolding frames push_root bind_machine gets makes build updates set_base writes set_slot reads
    file_fresh_builtin_types modify ◌>>=◌
make_base h fuel = do
  env ← frames (λ envs s. push_root fuel envs s)
  bind_machine h fuel env
  catalogue ← gets (λ (e : Engine). e.catalogue)
  base ← makes (λ s. build fuel s catalogue env)
  updates (λ s. set_base fuel s env base)
  flag ← gets (λ (e : Engine). e.sigint_flag)
  writes (λ s. set_slot s base sigint_slot flag)
  first ← reads (λ s. is_nil s.base)
  if first then pure tt else file_fresh_builtin_types fuel base
  modify (λ (e : Engine). record e { base_syms = map_insert e.base_syms base [] })
  pure base

unfoldable pub base_make : PrimFn
unfolding eargs_for make_base ◌>>=◌
base_make h d callee args env = do eargs_for d callee args env 0; make_base h d.fuel

unfoldable pub base_eval : PrimFn
unfolding eargs_for reads env_of in_base ◌>>=◌
base_eval h d callee args env = do
  vals ← eargs_for d callee args env 2
  let base = get_or vals 0 nil
  target ← reads (λ s. env_of s base)
  in_base base (d.eval (get_or vals 1 nil) target)

unfoldable pub base_bind : PrimFn
unfolding eargs_for reads env_of binds bind ◌>>=◌
base_bind h d callee args env = do
  vals ← eargs_for d callee args env 3
  target ← reads (λ s. env_of s (get_or vals 0 nil))
  binds (λ envs s. bind d.fuel envs s target (get_or vals 1 nil) (get_or vals 2 nil))
  pure (get_or vals 2 nil)
