-- ===== src/Engine/Boot.antt =====
-- src/engine.rs: the making of an engine. Each row of the table gets an object, which its bare name
-- and its coordinate share; then come the handlers, the first base and the builtin types.
use x_engine_rust.Prelude.{
  ℕ, zero, suc, ◌+◌, true, false, not, ◌&&◌, Option, none, some, List, [], ◌∷◌, ◌++◌, reverse, ◌==◌,
  if◌then◌else◌, length, set,
}
use x_engine_rust.Prelude.Int.{pos}
use x_engine_rust.Obj.{Obj, nil, is_nil}
use x_engine_rust.Objects.{Objects, flags, type_of_word, set_type_word, chain_next}
use x_engine_rust.Objects.Kinds.{codes, stamped_kinds}
use x_engine_rust.Symbols.{same_name}
use x_engine_rust.Value.{spair}
use x_engine_rust.Value.Make.{
  sym, sym_shared, prim, int, char_new, str_from_bytes, pair, ptr, foreign, env_obj, token_eof,
}
use x_engine_rust.Base.{set_cell_int}
use x_engine_rust.Env.{new}
use x_engine_rust.Env.Frames.{push_root}
use x_engine_rust.Typed.Builtin.{obj_type, builtin_type_in}
use x_engine_rust.Engine.{
  Engine, M, pure, out_of_fuel, gets, reads, makes, frames, writes, modify, ◌>>=◌, ◌>>◌, Host,
  PrimDef,
}
use x_engine_rust.Engine.Bases.{make_base, file_kinds, switch}
use Prim.Native.String.{String}

-- The fields before anything is registered; the stress count is that of the environment.
abbrev pub bare_engine : Objects → ℕ → Engine
bare_engine s gc_stress = record {
  objects = s;
  envs = new;
  base = nil;
  catalogue = nil;
  prim_bindings = [];
  line_stack = [];
  live_file = 0;
  roots = [];
  env_roots = [];
  in_gc = false;
  active_evals = 0;
  base_stack = [];
  gc_stress = gc_stress;
  stress_countdown = gc_stress;
  escaping = none;
  next_cont = 1;
  control = [];
  jit_env = none;
  cont_snapshots = [];
  base_syms = [];
  alloc_limit = none;
  token_eof = nil;
  sigint_flag = nil;
  interrupts = [];
}

abbrev pub Coord : Type 0
Coord = String × String × Obj

unfoldable pub register_bare : ℕ → Option String → Obj → M (Unit {0})
unfolding makes sym_shared modify ◌>>=◌
register_bare fuel none o = pure tt
register_bare fuel (some name) o = do
  sym ← makes (λ s. sym_shared fuel s (codes name))
  modify (λ (e : Engine). record e { prim_bindings = e.prim_bindings ++ (sym, o) ∷ [] })

unfoldable pub register_coord : ℕ → Option (String × String) → Obj → M (List Coord)
unfolding makes sym_shared ◌>>=◌
register_coord fuel none o = pure []
register_coord fuel (some (ns, m)) o = do
  makes (λ s. sym_shared fuel s (codes ns))
  makes (λ s. sym_shared fuel s (codes m))
  pure ((ns, m, o) ∷ [])

-- The rows from place `idx` on, and the coordinates that they file.
unfoldable pub register_rows : ℕ → List PrimDef → ℕ → M (List Coord)
unfolding makes prim register_bare register_coord ◌>>=◌
register_rows fuel [] idx = pure []
register_rows fuel (def ∷ rows) idx = do
  o ← makes (λ s. prim fuel s idx)
  register_bare fuel def.bare o
  here ← register_coord fuel def.coord o
  more ← register_rows fuel rows (idx + 1)
  pure (here ++ more)

abbrev pub Namespace : Type 0
Namespace = String × List (String × Obj)

-- A method in its namespace, which is put last when it is new.
unfoldable pub add_method : List Namespace → String → String → Obj → List Namespace
unfolding same_name
add_method [] ns m o = (ns, (m, o) ∷ []) ∷ []
add_method ((n, methods) ∷ others) ns m o =
    let later = add_method others ns m o in
    if same_name (codes n) (codes ns)
    then (n, methods ++ (m, o) ∷ []) ∷ others
    else (n, methods) ∷ later

unfoldable pub group : List Coord → List Namespace → List Namespace
unfolding add_method
group [] spaces = spaces
group ((ns, m, o) ∷ coords) spaces = group coords (add_method spaces ns m o)

-- The methods of a namespace from the last to the first.
unfoldable pub method_spine : ℕ → List (String × Obj) → M Obj
unfolding makes sym spair ◌>>=◌
method_spine fuel [] = pure nil
method_spine fuel ((m, o) ∷ methods) = do
  more ← method_spine fuel methods
  name ← makes (λ s. sym fuel s (codes m))
  entry ← makes (λ s. spair s name o)
  makes (λ s. spair s entry more)

unfoldable pub catalogue_spine : ℕ → List Namespace → M Obj
unfolding method_spine makes sym spair ◌>>=◌
catalogue_spine fuel [] = pure nil
catalogue_spine fuel ((ns, methods) ∷ spaces) = do
  more ← catalogue_spine fuel spaces
  spine ← method_spine fuel methods
  name ← makes (λ s. sym fuel s (codes ns))
  entry ← makes (λ s. spair s name spine)
  makes (λ s. spair s entry more)

unfoldable pub file_catalogue : ℕ → List Coord → M Obj
unfolding catalogue_spine group
file_catalogue fuel coords = catalogue_spine fuel (group coords [])

-- The states of the integer analyser, at places from `i` on.
unfoldable pub register_states : ℕ → ℕ → ℕ → ℕ → M (Unit {0})
unfolding makes prim writes ◌>>=◌
register_states fuel zero idx i = pure tt
register_states fuel (suc left) idx i = do
  o ← makes (λ s. prim fuel s idx)
  writes (λ s. record s { int_states = set s.int_states i o })
  register_states fuel left (idx + 1) (i + 1)

-- What stands in the table behind the instructions, from place `n` on: the render handler, the
-- states and the reader of integers, the eval handlers, the entries and the two call handlers.
unfoldable pub register_handlers : ℕ → ℕ → M (Unit {0})
unfolding register_states makes prim writes ◌>>=◌
register_handlers fuel n = do
  register_states fuel 5 (n + 1) 0
  reader ← makes (λ s. prim fuel s (n + 6))
  writes (λ s. record s { int_read = reader })
  symbol ← makes (λ s. prim fuel s (n + 7))
  writes (λ s. record s { eval_handlers = set s.eval_handlers 0 symbol })
  alist ← makes (λ s. prim fuel s (n + 8))
  writes (λ s. record s { eval_handlers = set s.eval_handlers 1 alist })
  writes (λ s. record s { entry_words = (n + 9) ∷ (n + 10) ∷ (n + 11) ∷ (n + 12) ∷ [] })
  entry ← makes (λ s. prim fuel s (n + 13))
  writes (λ s. record s { callable_call_handler = entry })
  index ← makes (λ s. prim fuel s (n + 14))
  writes (λ s. record s { list_call_handler = index })

-- The types of values, made where there are none.
unfoldable pub type_each : ℕ → List Obj → M (Unit {0})
unfolding makes obj_type ◌>>=◌
type_each fuel [] = pure tt
type_each fuel (o ∷ objs) = do makes (λ s. obj_type fuel s o); type_each fuel objs

-- The objects of the chain from `at` that were made before their types.
unfoldable pub backfill_types : ℕ → Obj → Obj → Obj → M (Unit {0})
unfolding reads type_of_word makes flags builtin_type_in writes set_type_word chain_next ◌>>=◌
backfill_types zero base t_true at = if is_nil at then pure tt else out_of_fuel
backfill_types (suc fuel) base t_true at = elim (is_nil at) [
  | true ↦ pure tt
  | false ↦ do
    stale ← reads (λ s. not (at == t_true) && is_nil (type_of_word s at))
    if stale
        then (do
          t ← makes (λ s. builtin_type_in fuel s base (flags s at))
          writes (λ s. set_type_word s at t))
        else pure tt
    next ← reads (λ s. chain_next s at)
    backfill_types fuel base t_true next
]

-- A value of each kind that the library can name.
unfoldable pub samples : ℕ → M (List Obj)
unfolding makes int str_from_bytes reads char_new pair ptr foreign frames push_root env_obj ◌>>=◌
samples fuel = do
  one ← makes (λ s. int fuel s (pos 1))
  number ← makes (λ s. int fuel s (pos 0))
  text ← makes (λ s. str_from_bytes fuel s [])
  t ← reads (λ s. s.true_obj)
  c ← makes (λ s. char_new fuel s 65)
  f ← reads (λ s. s.false_obj)
  p ← makes (λ s. pair fuel s one nil)
  at ← makes (λ s. ptr fuel s 0)
  code ← makes (λ s. foreign fuel s 0)
  scratch ← frames (λ envs s. push_root fuel envs s)
  env ← makes (λ s. env_obj fuel s scratch)
  pure (number ∷ text ∷ t ∷ c ∷ f ∷ p ∷ at ∷ code ∷ env ∷ [])

unfoldable pub register_builtin_types : ℕ → M (Unit {0})
unfolding samples type_each gets file_kinds reads backfill_types ◌>>=◌
register_builtin_types fuel = do
  objs ← samples fuel
  type_each fuel objs
  base ← gets (λ (e : Engine). e.base)
  file_kinds fuel base (reverse stamped_kinds)
  t ← reads (λ s. s.true_obj)
  chain ← reads (λ s. s.heap_chain)
  backfill_types fuel base t chain

-- `Engine::new`, on the bare engine, with the rows of the tables.
unfoldable pub boot : Host → ℕ → List PrimDef → M (Unit {0})
unfolding register_rows file_catalogue modify register_handlers makes token_eof int make_base writes
    switch register_builtin_types ◌>>=◌
boot h fuel rows = do
  coords ← register_rows fuel rows 0
  catalogue ← file_catalogue fuel coords
  modify (λ (e : Engine). record e { catalogue = catalogue })
  register_handlers fuel (length rows)
  eof ← makes (λ s. token_eof fuel s)
  flag ← makes (λ s. int fuel s (pos 0))
  modify (λ (e : Engine). record e { token_eof = eof; sigint_flag = flag })
  base ← make_base h fuel
  modify (λ (e : Engine). record e { base = base })
  writes (λ s. switch s base s.symbols)
  register_builtin_types fuel

abbrev pub obj_meta_extra : ℕ
obj_meta_extra = 6

unfoldable pub arm_source_meta : Engine → Engine
unfolding set_cell_int
arm_source_meta e = record e { objects = set_cell_int e.objects e.base obj_meta_extra 2 }
