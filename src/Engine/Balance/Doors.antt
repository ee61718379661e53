-- ===== src/Engine/Balance/Doors.antt =====
-- src/eval.rs: the ways in which a combiner is applied are balanced, over doors that are.
use x_engine_rust.Prelude.{ℕ, ◌≡◌, some, List, [], ◌∷◌, ◌++◌}
use x_engine_rust.Obj.{Obj, EnvId, nil}
use x_engine_rust.Engine.{M, Door}
use x_engine_rust.Engine.Apply.{
  root_env, settle_tail, settle, eval_call, spine_for, call_with_values, call_with_values_tail,
  arg_steps, eval_args_for, eval_args, eargs_for, eargs, body_steps, eval_body_tail, seq_steps,
  eval_body, saved, apply_closure_bound, apply_closure, apply_closure_values, bind_caller, apply_op,
  apply_wrapper,
}
use x_engine_rust.Engine.Balance.{
  Balanced, Balanced-pure, Balanced-raise, Balanced-of, Balanced-out_of_fuel, Balanced-gets,
  Balanced-reads, Balanced-walks, Balanced-makes, Balanced-frames, Balanced-attempt,
  Balanced-writes, Balanced-updates, Balanced-binds, Balanced-root_push, Balanced-bind,
  Balanced-on_option, Balanced-on_result, Balanced-if,
}
use x_engine_rust.Engine.Balance.Brackets.{
  Balanced-push_roots, Balanced-rooted, Balanced-env_rooted, Balanced-recorded,
}

pub ruleset steps = (
  Balanced-pure, Balanced-raise, Balanced-of, Balanced-out_of_fuel, Balanced-gets, Balanced-reads,
  Balanced-walks, Balanced-makes, Balanced-frames, Balanced-attempt, Balanced-writes,
  Balanced-updates, Balanced-binds, Balanced-root_push, Balanced-bind, Balanced-on_option,
  Balanced-on_result, Balanced-if, Balanced-push_roots, Balanced-rooted, Balanced-env_rooted,
  Balanced-recorded,
)

pub record IsBalanced (d : Door) : Type 0 where
  pub eval : (form : Obj) (env : EnvId) → Balanced (d.eval form env)
  pub combine : (callee args : Obj) (env : EnvId) → Balanced (d.combine callee args env)
  pub entry :
      (idx : ℕ) (f : Obj → Obj → EnvId → M Obj)
      → d.entry idx ≡ some f
      → (callee args : Obj) (env : EnvId) → Balanced (f callee args env)

pub root_env-Balanced : Balanced root_env
unfolding root_env
root_env-Balanced = search steps

module _ (d : Door) (b : IsBalanced d) where
  eval-Balanced : (form : Obj) (env : EnvId) → Balanced (d.eval form env)
  eval-Balanced form env = b.eval form env

  combine-Balanced : (callee args : Obj) (env : EnvId) → Balanced (d.combine callee args env)
  combine-Balanced callee args env = b.combine callee args env

  pub settle_tail-Balanced : (v : Obj) → Balanced (settle_tail d v)
  unfolding settle_tail
  settle_tail-Balanced v = search (steps, eval-Balanced)

  settle-Balanced : (v : Obj) (env : EnvId) → Balanced (settle d v env)
  unfolding settle
  settle-Balanced v env = settle_tail-Balanced v

  pub eval_call-Balanced :
      (callee args : Obj) (env : EnvId) → Balanced (eval_call d callee args env)
  unfolding eval_call
  eval_call-Balanced callee args env = search (steps, combine-Balanced, settle-Balanced)

  spine_for-Balanced : (callee : Obj) (vals : List Obj) → Balanced (spine_for d callee vals)
  unfolding spine_for
  spine_for-Balanced callee vals = search steps

  pub call_with_values-Balanced :
      (callee : Obj) (vals : List Obj) (env : EnvId) → Balanced (call_with_values d callee vals env)
  unfolding call_with_values
  call_with_values-Balanced callee vals env =
      search (steps, spine_for-Balanced, eval_call-Balanced) depth 8

  pub call_with_values_tail-Balanced :
      (callee : Obj) (vals : List Obj) (env : EnvId)
      → Balanced (call_with_values_tail d callee vals env)
  unfolding call_with_values_tail
  call_with_values_tail-Balanced callee vals env =
      search (steps, spine_for-Balanced, combine-Balanced) depth 8

  arg_steps-Balanced :
      (callee : Obj) (env : EnvId) (n : ℕ) (node : Obj) (vals forms : List Obj)
      → Balanced (arg_steps d callee env n node vals forms)
  unfolding arg_steps
  arg_steps-Balanced callee env n node vals [] = search steps
  arg_steps-Balanced callee env n node vals (f ∷ forms) =
      let more =
        λ (next : Obj) (v : Obj). arg_steps-Balanced callee env n next (vals ++ v ∷ []) forms in
      search (steps, eval-Balanced, more) depth 8

  pub eval_args_for-Balanced :
      (callee args : Obj) (env : EnvId) (n : ℕ) → Balanced (eval_args_for d callee args env n)
  unfolding eval_args_for
  eval_args_for-Balanced callee args env n = search (steps, arg_steps-Balanced) depth 9

  pub eval_args-Balanced : (args : Obj) (env : EnvId) → Balanced (eval_args d args env)
  unfolding eval_args
  eval_args-Balanced args env = eval_args_for-Balanced nil args env 0

  pub eargs_for-Balanced :
      (callee args : Obj) (env : EnvId) (n : ℕ) → Balanced (eargs_for d callee args env n)
  unfolding eargs_for
  eargs_for-Balanced callee args env n = search (steps, eval_args_for-Balanced)

  pub eargs-Balanced : (args : Obj) (env : EnvId) (n : ℕ) → Balanced (eargs d args env n)
  unfolding eargs
  eargs-Balanced args env n = eargs_for-Balanced nil args env n

  body_steps-Balanced :
      (node : Obj) (env : EnvId) (forms : List Obj) → Balanced (body_steps d node env forms)
  unfolding body_steps
  body_steps-Balanced node env [] = search steps
  body_steps-Balanced node env (f ∷ []) = search steps
  body_steps-Balanced node env (f ∷ g ∷ forms) =
      let more = λ (next : Obj). body_steps-Balanced next env (g ∷ forms) in
      search (steps, eval-Balanced, more) depth 8

  pub eval_body_tail-Balanced : (body : Obj) (env : EnvId) → Balanced (eval_body_tail d body env)
  unfolding eval_body_tail
  eval_body_tail-Balanced body env = search (steps, body_steps-Balanced)

  seq_steps-Balanced :
      (node : Obj) (env : EnvId) (last : Obj) (forms : List Obj)
      → Balanced (seq_steps d node env last forms)
  unfolding seq_steps
  seq_steps-Balanced node env last [] = search steps
  seq_steps-Balanced node env last (f ∷ forms) =
      let more = λ (next : Obj) (v : Obj). seq_steps-Balanced next env v forms in
      search (steps, eval-Balanced, more) depth 8

  pub eval_body-Balanced : (body : Obj) (env : EnvId) → Balanced (eval_body d body env)
  unfolding eval_body
  eval_body-Balanced body env = search (steps, seq_steps-Balanced)

  pub saved-Balanced : (env : EnvId) (m : M Obj) → Balanced m → Balanced (saved d env m)
  unfolding saved
  saved-Balanced env m h = search steps depth 8

  pub apply_closure_bound-Balanced :
      (callee : Obj) (vals : List Obj) → Balanced (apply_closure_bound d callee vals)
  unfolding apply_closure_bound
  apply_closure_bound-Balanced callee vals =
      search (steps, saved-Balanced, eval_body_tail-Balanced) depth 12

  pub apply_closure-Balanced :
      (callee args : Obj) (env : EnvId) → Balanced (apply_closure d callee args env)
  unfolding apply_closure
  apply_closure-Balanced callee args env =
      search (steps, eval_args_for-Balanced, apply_closure_bound-Balanced)

  pub apply_closure_values-Balanced :
      (callee : Obj) (vals : List Obj) → Balanced (apply_closure_values d callee vals)
  unfolding apply_closure_values
  apply_closure_values-Balanced callee vals =
      search (steps, apply_closure_bound-Balanced, settle_tail-Balanced)

  bind_caller-Balanced :
      (frame : EnvId) (envname : Obj) (env : EnvId) → Balanced (bind_caller d frame envname env)
  unfolding bind_caller
  bind_caller-Balanced frame envname env = search steps

  pub apply_op-Balanced : (callee args : Obj) (env : EnvId) → Balanced (apply_op d callee args env)
  unfolding apply_op
  apply_op-Balanced callee args env =
      search (steps, bind_caller-Balanced, eval_body_tail-Balanced) depth 12

  pub apply_wrapper-Balanced : (w args : Obj) (env : EnvId) → Balanced (apply_wrapper d w args env)
  unfolding apply_wrapper
  apply_wrapper-Balanced w args env = search (steps, eval_args-Balanced, eval_call-Balanced) depth 8
