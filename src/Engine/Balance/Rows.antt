-- ===== src/Engine/Balance/Rows.antt =====
-- src/syntax/, src/prims/ and src/prim.rs: every instruction that is modelled is balanced, over doors
-- that are.
use x_engine_rust.Prelude.{ℕ, refl, Option, none, some, List, [], ◌∷◌}
use x_engine_rust.Prelude.Int.{ℤ}
use x_engine_rust.Obj.{Obj, EnvId}
use x_engine_rust.Objects.{Objects}
use x_engine_rust.Engine.{
  Text, Cond, raised, engine_msg, unbound, cannot_include, not_an_environment, no_program,
  alloc_exceeded, Engine, M, Host, Door, PrimFn,
}
use x_engine_rust.Engine.Apply.{call_with_values}
use x_engine_rust.Engine.Operators.{
  op_call, op_refuse, op_arbitrate, op_choose, op_try, boxed, raw2,
}
use x_engine_rust.Engine.Gc.{
  hook_steps, run_gc_hooks, first_hooks, mark_stack, marked, remarked, mark_live, purge, collect,
}
use x_engine_rust.Engine.Escape.{invoke_cont, capture, catch_escape, define, assign, with_escape}
use x_engine_rust.Engine.Syntax.{
  match_arm, match_arms, cond_value, freeze, bind_cond, run_handler, handle_cond,
}
use x_engine_rust.Engine.Balance.{
  After, Same, Apart, Balanced, Apart-Same, Balanced-modify, Balanced-bind, Balanced-attempt,
}
use x_engine_rust.Engine.Balance.Doors.{
  steps, IsBalanced, call_with_values-Balanced, eval_body_tail-Balanced,
}

-- An instruction is balanced over balanced doors.
pub record IsStep (p : PrimFn) : Type 0 where
  pub at :
      (h : Host) (d : Door)
      → IsBalanced d
      → (callee args : Obj) (env : EnvId) → Balanced (p h d callee args env)

pub invoke_cont-Balanced : (k v : Obj) → Balanced (invoke_cont k v)
unfolding invoke_cont
invoke_cont-Balanced k v = search (steps, Balanced-modify)

pub catch_escape-Balanced : (id : ℕ) (c : Cond) → Balanced (catch_escape id c)
unfolding catch_escape
catch_escape-Balanced id c = search (steps, Balanced-modify)

pub define-Balanced :
    (fuel : ℕ) (name : Obj) (env : EnvId) (v : Obj) → Balanced (define fuel name env v)
unfolding define
define-Balanced fuel name env v = search steps

pub assign-Balanced :
    (fuel : ℕ) (name : Obj) (env : EnvId) (v : Obj) → Balanced (assign fuel name env v)
unfolding assign
assign-Balanced fuel name env v = search steps

capture-Apart : (id : ℕ) (k : Obj) (e : Engine) → Apart e (capture id k e)
unfolding capture
capture-Apart id k e = record {
  roots = refl;
  env_roots = refl;
  control = refl;
  evals = refl;
  bases = refl;
  base = refl;
}

freeze-Apart : (e : Engine) → Apart e (freeze e)
unfolding freeze
freeze-Apart e = record {
  roots = refl;
  env_roots = refl;
  control = refl;
  evals = refl;
  bases = refl;
  base = refl;
}

purge-Apart : (e : Engine) → Apart e (purge e)
unfolding purge
purge-Apart e = record {
  roots = refl;
  env_roots = refl;
  control = refl;
  evals = refl;
  bases = refl;
  base = refl;
}

module _ (h : Host) (d : Door) (b : IsBalanced d) where
  pub eval-Balanced : (form : Obj) (env : EnvId) → Balanced (d.eval form env)
  eval-Balanced form env = b.eval form env

  pub combine-Balanced : (callee args : Obj) (env : EnvId) → Balanced (d.combine callee args env)
  combine-Balanced callee args env = b.combine callee args env

  pub with_escape-Balanced : (f : Obj) (env : EnvId) → Balanced (with_escape d f env)
  unfolding with_escape
  with_escape-Balanced f env =
      search
        (
          steps,
          Balanced-modify,
          capture-Apart,
          call_with_values-Balanced d b,
          catch_escape-Balanced,
        )
        depth 9

  pub call-Balanced :
      (callee : Obj) (vals : List Obj) (env : EnvId) → Balanced (call_with_values d callee vals env)
  call-Balanced callee vals env = call_with_values-Balanced d b callee vals env

  op_call-Balanced : (handler x y : Obj) → Balanced (op_call h d handler x y)
  unfolding op_call
  op_call-Balanced handler x y = search (steps, call-Balanced)

  op_refuse-Balanced : (op : Text) (name : Obj) → Balanced (op_refuse h d op name)
  unfolding op_refuse
  op_refuse-Balanced op name = search steps

  op_arbitrate-Balanced :
      (op : Text) (x y ta tb handler other : Obj)
      → Balanced (op_arbitrate h d op x y ta tb handler other)
  unfolding op_arbitrate
  op_arbitrate-Balanced op x y ta tb handler other =
      search (steps, op_call-Balanced, op_refuse-Balanced) depth 9

  op_choose-Balanced :
      (op : Text) (x y ta tb : Obj) (ha hb : Option Obj)
      → Balanced (op_choose h d op x y ta tb ha hb)
  unfolding op_choose
  op_choose-Balanced op x y ta tb none none = search steps
  op_choose-Balanced op x y ta tb (some f) none = op_call-Balanced f x y
  op_choose-Balanced op x y ta tb none (some g) = op_call-Balanced g x y
  op_choose-Balanced op x y ta tb (some f) (some g) =
      search (steps, op_call-Balanced, op_arbitrate-Balanced)

  pub op_try-Balanced : (op : Text) (x y : Obj) → Balanced (op_try h d op x y)
  unfolding op_try
  op_try-Balanced op x y = search (steps, op_choose-Balanced) depth 12

  boxed-Balanced : (f : ℤ → ℤ → ℤ) (x y : Obj) → Balanced (boxed h d f x y)
  unfolding boxed
  boxed-Balanced f x y = search steps

  pub raw2-Balanced : (name : Text) (f : ℤ → ℤ → ℤ) (x y : Obj) → Balanced (raw2 h d name f x y)
  unfolding raw2
  raw2-Balanced name f x y = search steps

  hook_steps-Balanced : (env : EnvId) (hooks : List Obj) → Balanced (hook_steps d env hooks)
  unfolding hook_steps
  hook_steps-Balanced env [] = search steps
  hook_steps-Balanced env (hook ∷ hooks) =
      Balanced-bind _ _ (Balanced-attempt _ (call-Balanced hook [] env))
        (λ u. hook_steps-Balanced env hooks)

  run_gc_hooks-Balanced : (slot : ℕ) → Balanced (run_gc_hooks d slot)
  unfolding run_gc_hooks
  run_gc_hooks-Balanced slot = search (steps, hook_steps-Balanced) depth 8

  first_hooks-Balanced : Balanced (first_hooks d)
  unfolding first_hooks
  first_hooks-Balanced = search (steps, Balanced-modify, run_gc_hooks-Balanced) depth 8

  match_arm-Balanced :
      (env : EnvId) (arm : Obj) (later : M Obj)
      → Balanced later
      → Balanced (match_arm d env arm later)
  unfolding match_arm
  match_arm-Balanced env arm later more =
      let tail = eval_body_tail-Balanced d b in search (steps, eval-Balanced, tail) depth 12

  pub match_arms-Balanced : (env : EnvId) (arms : List Obj) → Balanced (match_arms d env arms)
  unfolding match_arms
  match_arms-Balanced env [] = search steps
  match_arms-Balanced env (arm ∷ arms) =
      match_arm-Balanced env arm (match_arms d env arms) (match_arms-Balanced env arms)

  cond_value-Balanced : (fuel : ℕ) (c : Cond) → Balanced (cond_value h fuel c)
  unfolding cond_value
  cond_value-Balanced fuel (raised v) = search steps
  cond_value-Balanced fuel (engine_msg text) = search steps
  cond_value-Balanced fuel (unbound name) = search steps
  cond_value-Balanced fuel (cannot_include path) = search steps
  cond_value-Balanced fuel (not_an_environment o) = search steps
  cond_value-Balanced fuel no_program = search steps
  cond_value-Balanced fuel alloc_exceeded = search steps

  bind_cond-Balanced :
      (fuel : ℕ) (frame : EnvId) (name : Obj) (c : Cond) → Balanced (bind_cond h fuel frame name c)
  unfolding bind_cond
  bind_cond-Balanced fuel frame name c = search (steps, cond_value-Balanced)

  run_handler-Balanced :
      (spec : Obj) (env : EnvId) (c : Cond) → Balanced (run_handler h d spec env c)
  unfolding run_handler
  run_handler-Balanced spec env c =
      let tail = eval_body_tail-Balanced d b in
      search (steps, Balanced-modify, freeze-Apart, bind_cond-Balanced, tail) depth 12

  pub handle_cond-Balanced :
      (spec : Obj) (env : EnvId) (c : Cond) → Balanced (handle_cond h d spec env c)
  unfolding handle_cond
  handle_cond-Balanced spec env c = search (steps, run_handler-Balanced)

  marked-Same : (e : Engine) (x : Option Objects) → After (Same e) (remarked d e x)
  marked-Same e none = tt
  marked-Same e (some s) = Apart-Same (record {
    roots = refl;
    env_roots = refl;
    control = refl;
    evals = refl;
    bases = refl;
    base = refl;
  })

  mark_live-Balanced : Balanced (mark_live d)
  unfolding mark_live
  mark_live-Balanced = record { at = λ e. marked-Same e (marked d e (mark_stack d.fuel e)) }

  -- A collection, with its hooks.
  pub collect-Balanced : Balanced (collect d)
  unfolding collect
  collect-Balanced =
      search
        (
          steps, Balanced-modify, purge-Apart, first_hooks-Balanced, mark_live-Balanced,
          run_gc_hooks-Balanced,
        )
        depth 12
