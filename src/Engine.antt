-- ===== src/Engine.antt =====
-- src/engine.rs, src/diag.rs, src/prim.rs and the roots of src/collect.rs: the state of an engine,
-- its conditions, its control records, and the actions on it. An action is a function of the state:
-- `none` means that it does not return, for want of fuel or of room in the arena; else there is an
-- `EvalResult`, with the state after it in both cases. What lies outside of the source is a `Host`.
pub mod Apply
pub mod Operators
pub mod Gc
pub mod Run
pub mod Collection
pub mod Escape
pub mod Syntax
pub mod Doors
pub mod Rows
pub mod Replay
pub mod Tables
pub mod Check
pub mod Bases
pub mod Session
pub mod Boot
pub mod Balance
use x_engine_rust.Prelude.{
  ℕ, zero, suc, ◌+◌, ◌-◌, Bool, true, false, Option, none, some, List, [], ◌∷◌, ◌++◌, length,
}
use x_engine_rust.Obj.{Obj, EnvId, Word}
use x_engine_rust.Objects.{Objects}
use x_engine_rust.Symbols.{Symbols}
use x_engine_rust.Env.{Envs, Map}
use Prim.Native.String.{String}

-- A text is its bytes.
abbrev pub Text : Type 0
Text = List ℕ

pub data Cond : Type 0 where
  raised : Obj → Cond
  engine_msg : Text → Cond
  unbound : Obj → Cond
  cannot_include : Text → Cond
  not_an_environment : Obj → Cond
  no_program : Cond
  alloc_exceeded : Cond

pub data Result (A : Type 0) : Type 0 where
  ok : A → Result A
  err : Cond → Result A

-- What is left to do at a place of the evaluation, with its depth last.
pub data ControlRec : Type 0 where
  body_rec : Obj → EnvId → ℕ → ControlRec
  args_rec : Obj → List Obj → Obj → EnvId → ℕ → ℕ → ControlRec
  bind_rec : Obj → EnvId → Bool → ℕ → ControlRec
  pass_rec : ℕ → ControlRec

unfoldable pub depth_of : ControlRec → ℕ
depth_of (body_rec rest env depth) = depth
depth_of (args_rec callee done rest env n depth) = depth
depth_of (bind_rec name env set depth) = depth
depth_of (pass_rec depth) = depth

pub record ContSnapshot : Type 0 where
  pub k : Obj
  pub recs : List ControlRec
  pub resumable : Bool

-- The fields of `Engine`, less the table of instructions, which is fixed, and the open files. A
-- stack is a list with its top last. `interrupts` is what the flag of the signal handler holds at
-- each of its next readings.
pub record Engine : Type 0 where
  pub objects : Objects
  pub envs : Envs
  pub base : Obj
  pub catalogue : Obj
  pub prim_bindings : List (Obj × Obj)
  pub line_stack : List Obj
  pub live_file : Word
  pub roots : List Obj
  pub env_roots : List EnvId
  pub in_gc : Bool
  pub active_evals : ℕ
  pub base_stack : List Obj
  pub gc_stress : ℕ
  pub stress_countdown : ℕ
  pub escaping : Option (ℕ × Obj)
  pub next_cont : ℕ
  pub control : List ControlRec
  pub jit_env : Option EnvId
  pub cont_snapshots : Map ContSnapshot
  pub base_syms : Map Symbols
  pub alloc_limit : Option ℕ
  pub token_eof : Obj
  pub sigint_flag : Obj
  pub interrupts : List Bool

abbrev pub M : Type 0 → Type 0
M A = Engine → Option (Result A × Engine)

module _ {A : Type 0} where
  unfoldable pub pure : A → M A
  pure a e = some (ok a, e)

  unfoldable pub raise : Cond → M A
  raise c e = some (err c, e)

  unfoldable pub of : Result A → M A
  of r e = some (r, e)

  unfoldable pub out_of_fuel : M A
  out_of_fuel e = none

  unfoldable pub gets : (Engine → A) → M A
  gets f e = some (ok (f e), e)

  unfoldable pub reads : (Objects → A) → M A
  reads f e = some (ok (f e.objects), e)

  abbrev pub answered : Engine → Option A → Option (Result A × Engine)
  answered e none = none
  answered e (some a) = some (ok a, e)

  -- A walk of the store on fuel.
  unfoldable pub walks : (Objects → Option A) → M A
  walks f e = answered e (f e.objects)

  abbrev pub stored : Engine → Option (A × Objects) → Option (Result A × Engine)
  stored e none = none
  stored e (some (a, s)) = some (ok a, record e { objects = s })

  -- An allocation, or another step on the store that answers.
  unfoldable pub makes : (Objects → Option (A × Objects)) → M A
  makes f e = stored e (f e.objects)

  abbrev pub framed : Engine → Option (A × Envs × Objects) → Option (Result A × Engine)
  framed e none = none
  framed e (some (a, envs, s)) = some (ok a, record e { objects = s; envs = envs })

  -- A step on the environments.
  unfoldable pub frames : (Envs → Objects → Option (A × Envs × Objects)) → M A
  frames f e = framed e (f e.envs e.objects)

  abbrev pub caught : Option (Result A × Engine) → Option (Result (Result A) × Engine)
  caught none = none
  caught (some (r, e)) = some (ok r, e)

  -- The result as a value, for a caller that looks at it itself.
  unfoldable pub attempt : M A → M (Result A)
  attempt m e = caught (m e)

unfoldable pub writes : (Objects → Objects) → M (Unit {0})
writes f e = some (ok tt, record e { objects = f e.objects })

unfoldable pub modify : (Engine → Engine) → M (Unit {0})
modify f e = some (ok tt, f e)

abbrev pub updated : Engine → Option Objects → Option (Result (Unit {0}) × Engine)
updated e none = none
updated e (some s) = some (ok tt, record e { objects = s })

-- A step on the store that may need room.
unfoldable pub updates : (Objects → Option Objects) → M (Unit {0})
updates f e = updated e (f e.objects)

abbrev pub bound : Engine → Option (Envs × Objects) → Option (Result (Unit {0}) × Engine)
bound e none = none
bound e (some (envs, s)) = some (ok tt, record e { objects = s; envs = envs })

unfoldable pub binds : (Envs → Objects → Option (Envs × Objects)) → M (Unit {0})
binds f e = bound e (f e.envs e.objects)

module _ {A B : Type 0} where
  abbrev pub continue : (A → M B) → Option (Result A × Engine) → Option (Result B × Engine)
  continue f none = none
  continue f (some (ok a, e)) = f a e
  continue f (some (err c, e)) = some (err c, e)

  infixl 5 ◌>>=◌ ◌>>◌
  unfoldable pub ◌>>=◌ : M A → (A → M B) → M B
  unfolding pure raise of out_of_fuel gets reads walks makes frames attempt writes modify updates
      binds
  ◌>>=◌ m f e = continue f (m e)

  abbrev pub ◌>>◌ : M A → M B → M B
  m >> n = m >>= λ _. n

  -- The two cases of an option.
  unfoldable pub on_option : Option A → M B → (A → M B) → M B
  on_option none m f = m
  on_option (some a) m f = f a

  unfoldable pub on_result : Result A → (A → M B) → (Cond → M B) → M B
  on_result (ok a) f g = f a
  on_result (err c) f g = g c

abbrev pub take {ℓ} : {A : Type ℓ} → List A → ℕ → List A
take [] n = []
take (x ∷ xs) zero = []
take (x ∷ xs) (suc n) = x ∷ take xs n

-- The roots.
unfoldable pub root_push : Obj → M (Unit {0})
root_push o e = some (ok tt, record e { roots = e.roots ++ o ∷ [] })

unfoldable pub root_truncate : ℕ → M (Unit {0})
root_truncate to e = some (ok tt, record e { roots = take e.roots to })

abbrev pub root_mark : Engine → ℕ
root_mark e = length e.roots

unfoldable pub env_root_push : EnvId → M (Unit {0})
env_root_push env e = some (ok tt, record e { env_roots = e.env_roots ++ env ∷ [] })

unfoldable pub env_root_truncate : ℕ → M (Unit {0})
env_root_truncate to e = some (ok tt, record e { env_roots = take e.env_roots to })

abbrev pub env_root_mark : Engine → ℕ
env_root_mark e = length e.env_roots

unfoldable pub push_roots : List Obj → M (Unit {0})
unfolding root_push ◌>>=◌
push_roots [] = pure tt
push_roots (o ∷ objs) = root_push o >> push_roots objs

unfoldable pub control_push : ControlRec → M (Unit {0})
control_push r e = some (ok tt, record e { control = e.control ++ r ∷ [] })

-- `Vec::pop`, whose answer is dropped.
unfoldable pub control_pop : M (Unit {0})
control_pop e = some (ok tt, record e { control = take e.control (length e.control - 1) })

module _ {A : Type 0} where
  -- The bracket `root_mark`, `root_push` of each, the body, `root_truncate`.
  unfoldable pub rooted : List Obj → M A → M A
  unfolding push_roots root_truncate ◌>>=◌
  rooted objs m = do
    mark ← gets root_mark
    push_roots objs
    out ← attempt m
    root_truncate mark
    of out

  unfoldable pub env_rooted : EnvId → M A → M A
  unfolding env_root_push env_root_truncate ◌>>=◌
  env_rooted env m = do
    mark ← gets env_root_mark
    env_root_push env
    out ← attempt m
    env_root_truncate mark
    of out

  -- The bracket of a control record.
  unfoldable pub recorded : (ℕ → ControlRec) → M A → M A
  unfolding control_push control_pop ◌>>=◌
  recorded r m = do
    depth ← gets (λ (e : Engine). e.active_evals)
    control_push (r depth)
    out ← attempt m
    control_pop
    of out

-- What is outside of the source: a call of machine code with words, which answers a word; the
-- reading of bytes as text, which replaces what is not UTF-8; the address of the arena in the
-- process; and the two names that the build stamps.
pub record Host : Type 0 where
  pub call_ints : ℕ → List ℕ → Engine → Option (ℕ × Engine)
  pub lossy : Text → Text
  pub arena : ℕ
  pub machine : Text
  pub release : Text

-- The recursive doors of the evaluator: the fuel of the walks of the store, evaluation, application,
-- and the instruction at a place of the table.
pub record Door : Type 0 where
  pub fuel : ℕ
  pub eval : Obj → EnvId → M Obj
  pub combine : Obj → Obj → EnvId → M (Option Obj)
  pub entry : ℕ → Option (Obj → Obj → EnvId → M Obj)

-- `PrimFn`: the callee, the arguments as written, and the environment.
abbrev pub PrimFn : Type 0
PrimFn = Host → Door → Obj → Obj → EnvId → M Obj

pub record PrimDef : Type 0 where
  pub bare : Option String
  pub coord : Option (String × String)
  pub arity : ℕ × Option ℕ
  pub f : PrimFn

abbrev pub row : Option String → Option (String × String) → ℕ → PrimFn → PrimDef
row bare coord n f = record { bare = bare; coord = coord; arity = (n, some n); f = f }

-- `prims.get(idx)`.
abbrev pub prim_at : List PrimDef → ℕ → Option PrimDef
prim_at [] idx = none
prim_at (p ∷ prims) zero = some p
prim_at (p ∷ prims) (suc idx) = prim_at prims idx
