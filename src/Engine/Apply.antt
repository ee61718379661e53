-- ===== src/Engine/Apply.antt =====
-- src/eval.rs: the ways in which a combiner is applied, over the doors of the evaluator. The fuel of
-- the walks is that of the door.
use x_engine_rust.Prelude.{
  ℕ, zero, suc, ◌-◌, Bool, true, false, not, Option, none, some, List, [], ◌∷◌, ◌++◌, ◌==◌,
  if◌then◌else◌, length, replicate,
}
use x_engine_rust.Obj.{Obj, EnvId, nil, is_nil}
use x_engine_rust.Objects.{Objects, first, rest}
use x_engine_rust.Objects.Kinds.{codes}
use x_engine_rust.Value.{
  is_cell, is_foreign, list, closure_params, closure_body, closure_env, op_params, op_envname,
  op_body, op_env, wrapper_inner,
}
use x_engine_rust.Value.Make.{env_obj}
use x_engine_rust.Base.{env_of}
use x_engine_rust.Env.Frames.{push_frame, bind_params, bind_spine}
use x_engine_rust.Env.{bind}
use x_engine_rust.Typed.{from, type_handler}
use x_engine_rust.Pending.{value_spine, quote_values, tail_take, park_tail, save_push, save_pop}
use x_engine_rust.Engine.{
  engine_msg, body_rec, args_rec, Engine, M, pure, raise, of, gets, reads, walks, makes, frames,
  attempt, writes, updates, binds, ◌>>=◌, ◌>>◌, on_option, root_push, push_roots, rooted,
  env_rooted, recorded, Door,
}

-- The end of a spine: nil when it is proper.
unfoldable pub spine_end : ℕ → Objects → Obj → Option Obj
unfolding is_cell rest
spine_end zero s at = if is_cell s at then none else some at
spine_end (suc fuel) s at =
    let more = spine_end fuel s (rest s at) in if is_cell s at then more else some at

-- `if vals.len() < n { vals.resize(n, NIL) }`.
abbrev pub pad : List Obj → ℕ → List Obj
pad vals n = vals ++ replicate (n - length vals) nil

-- The handler that an entry of an ops alist names, by identity.
unfoldable pub ops_find : Objects → List Obj → Obj → Option Obj
unfolding first rest
ops_find s [] name = none
ops_find s (entry ∷ entries) name =
    if first s entry == name then some (rest s entry) else ops_find s entries name

abbrev find_ops : Objects → Obj → Option (List Obj) → Option (Option Obj)
find_ops s name none = none
find_ops s name (some entries) = some (ops_find s entries name)

unfoldable pub ops_lookup : ℕ → Objects → Obj → Obj → Option (Option Obj)
unfolding list ops_find
ops_lookup fuel s alist name =
    if is_nil alist then some none else find_ops s name (list fuel s alist)

unfoldable pub from_find : Objects → List Obj → Obj → Bool
unfolding first
from_find s [] name = false
from_find s (entry ∷ entries) name =
    if first s entry == name then true else from_find s entries name

abbrev find_from : Objects → Obj → Option (List Obj) → Option Bool
find_from s name none = none
find_from s name (some entries) = some (from_find s entries name)

-- Whether a type declares a conversion from the type of a name.
unfoldable pub declares_from : ℕ → Objects → Obj → Obj → Option Bool
unfolding type_handler list from_find
declares_from fuel s ty name =
    let alist = type_handler s ty from in
    if is_nil alist then some false else find_from s name (list fuel s alist)

-- The environment of the forms of the top level.
unfoldable pub root_env : M EnvId
unfolding gets env_of
root_env = gets (λ (e : Engine). env_of e.objects e.base)

module _ (d : Door) where
  -- A tail that was parked is run to a value.
  unfoldable pub settle_tail : Obj → M Obj
  unfolding makes tail_take on_option ◌>>=◌
  settle_tail v = do t ← makes (λ s. some (tail_take s)); on_option t (pure v) (λ p. d.eval p.0 p.1)

  unfoldable pub settle : Obj → EnvId → M Obj
  unfolding settle_tail
  settle v env = settle_tail v

  unfoldable pub eval_call : Obj → Obj → EnvId → M Obj
  unfolding on_option settle ◌>>=◌
  eval_call callee args env = do
    r ← d.combine callee args env
    on_option r (pure callee) (λ v. settle v env)

  -- The spine for values that are computed: raw for machine code, quoted for the rest.
  unfoldable pub spine_for : Obj → List Obj → M Obj
  unfolding makes reads is_foreign value_spine quote_values ◌>>=◌
  spine_for callee vals = do
    foreign ← reads (λ s. is_foreign s callee)
    makes (λ s. if foreign then value_spine d.fuel s vals else quote_values d.fuel s vals)

  unfoldable pub call_with_values : Obj → List Obj → EnvId → M Obj
  unfolding rooted spine_for root_push eval_call ◌>>=◌
  call_with_values callee vals env =
      rooted (callee ∷ vals)
        do spine ← spine_for callee vals; root_push spine; eval_call callee spine env

  unfoldable pub call_with_values_tail : Obj → List Obj → EnvId → M Obj
  unfolding rooted spine_for root_push on_option ◌>>=◌
  call_with_values_tail callee vals env = rooted (callee ∷ vals) do
    spine ← spine_for callee vals
    root_push spine
    r ← d.combine callee spine env
    on_option r (pure callee) (λ v. pure v)

  -- The loop over the argument forms, from the cell `node`, with the values so far.
  unfoldable pub arg_steps : Obj → EnvId → ℕ → Obj → List Obj → List Obj → M (List Obj)
  unfolding reads rest recorded root_push ◌>>=◌
  arg_steps callee env n node vals [] = pure vals
  arg_steps callee env n node vals (f ∷ forms) = do
    next ← reads (λ s. rest s node)
    v ←
        if is_nil callee
        then d.eval f env
        else recorded (args_rec callee vals next env n) (d.eval f env)
    root_push v
    arg_steps callee env n next (vals ++ v ∷ []) forms

  unfoldable pub eval_args_for : Obj → Obj → EnvId → ℕ → M (List Obj)
  unfolding walks spine_end list rooted arg_steps push_roots ◌>>=◌
  eval_args_for callee args env n = do
    end ← walks (λ s. spine_end d.fuel s args)
    if not (is_nil end) then raise (engine_msg (codes "improper argument list")) else (do
      forms ← walks (λ s. list d.fuel s args)
      vals ← rooted forms (arg_steps callee env n args [] forms)
      push_roots vals
      pure vals)

  unfoldable pub eval_args : Obj → EnvId → M (List Obj)
  unfolding eval_args_for
  eval_args args env = eval_args_for nil args env 0

  unfoldable pub eargs_for : Obj → Obj → EnvId → ℕ → M (List Obj)
  unfolding rooted eval_args_for ◌>>=◌
  eargs_for callee args env n = do
    vals ← rooted (args ∷ []) (eval_args_for callee args env n)
    pure (pad vals n)

  unfoldable pub eargs : Obj → EnvId → ℕ → M (List Obj)
  unfolding eargs_for
  eargs args env n = eargs_for nil args env n

  -- The forms of a body from the cell `node`: each but the last is evaluated, and the last parked.
  unfoldable pub body_steps : Obj → EnvId → List Obj → M Obj
  unfolding writes park_tail reads rest recorded ◌>>=◌
  body_steps node env [] = pure nil
  body_steps node env (f ∷ []) = writes (λ s. park_tail s f env) >> pure nil
  body_steps node env (f ∷ g ∷ forms) = do
    next ← reads (λ s. rest s node)
    recorded (body_rec next env) (d.eval f env)
    body_steps next env (g ∷ forms)

  unfoldable pub eval_body_tail : Obj → EnvId → M Obj
  unfolding walks list body_steps ◌>>=◌
  eval_body_tail body env = do forms ← walks (λ s. list d.fuel s body); body_steps body env forms

  unfoldable pub seq_steps : Obj → EnvId → Obj → List Obj → M Obj
  unfolding reads rest recorded ◌>>=◌
  seq_steps node env last [] = pure last
  seq_steps node env last (f ∷ forms) = do
    next ← reads (λ s. rest s node)
    v ← recorded (body_rec next env) (d.eval f env)
    seq_steps next env v forms

  unfoldable pub eval_body : Obj → EnvId → M Obj
  unfolding walks list seq_steps ◌>>=◌
  eval_body body env = do forms ← walks (λ s. list d.fuel s body); seq_steps body env nil forms

  -- The save is held over the body and released also when it fails.
  unfoldable pub saved : EnvId → M Obj → M Obj
  unfolding updates save_push attempt writes save_pop ◌>>=◌
  saved env m = do updates (λ s. save_push s env); out ← attempt m; writes save_pop; of out

  unfoldable pub apply_closure_bound : Obj → List Obj → M Obj
  unfolding reads closure_params closure_body closure_env frames push_frame env_rooted binds
      bind_params saved eval_body_tail ◌>>=◌
  apply_closure_bound callee vals = do
    params ← reads (λ s. closure_params s callee)
    body ← reads (λ s. closure_body s callee)
    defenv ← reads (λ s. closure_env s callee)
    frame ← frames (λ envs s. push_frame d.fuel envs s defenv)
    env_rooted frame do
      binds (λ envs s. bind_params d.fuel envs s frame params (callee ∷ vals))
      saved frame (eval_body_tail body frame)

  unfoldable pub apply_closure : Obj → Obj → EnvId → M Obj
  unfolding eval_args_for apply_closure_bound ◌>>=◌
  apply_closure callee args env = do
    vals ← eval_args_for callee args env 0
    apply_closure_bound callee vals

  unfoldable pub apply_closure_values : Obj → List Obj → M Obj
  unfolding rooted apply_closure_bound settle_tail ◌>>=◌
  apply_closure_values callee vals =
      rooted (callee ∷ vals) (apply_closure_bound callee vals >>= settle_tail)

  -- The name that an operative has for the environment of its caller.
  unfoldable pub bind_caller : EnvId → Obj → EnvId → M (Unit {0})
  unfolding makes env_obj binds bind ◌>>=◌
  bind_caller frame envname env = if is_nil envname then pure tt else (do
    o ← makes (λ s. env_obj d.fuel s env)
    binds (λ envs s. bind d.fuel envs s frame envname o))

  unfoldable pub apply_op : Obj → Obj → EnvId → M Obj
  unfolding reads op_params op_envname op_body op_env frames push_frame env_rooted binds bind_spine
      bind_caller eval_body_tail ◌>>=◌
  apply_op callee args env = do
    params ← reads (λ s. op_params s callee)
    envname ← reads (λ s. op_envname s callee)
    body ← reads (λ s. op_body s callee)
    defenv ← reads (λ s. op_env s callee)
    frame ← frames (λ envs s. push_frame d.fuel envs s defenv)
    env_rooted frame do
      binds (λ envs s. bind_spine d.fuel envs s frame params args)
      bind_caller frame envname env
      eval_body_tail body frame

  unfoldable pub apply_wrapper : Obj → Obj → EnvId → M Obj
  unfolding reads wrapper_inner eval_args makes value_spine eval_call ◌>>=◌
  apply_wrapper w args env = do
    inner ← reads (λ s. wrapper_inner s w)
    vals ← eval_args args env
    spine ← makes (λ s. value_spine d.fuel s vals)
    eval_call inner spine env
