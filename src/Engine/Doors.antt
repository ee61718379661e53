-- ===== src/Engine/Doors.antt =====
-- src/prims/core.rs: what a symbol and a list mean, the entries of callables, and the doors of the
-- evaluator: eval, apply, wrap and the base.
use x_engine_rust.Prelude.{
  ℕ, zero, suc, ◌+◌, not, Option, none, some, List, [], ◌∷◌, if◌then◌else◌, get_or,
}
use x_engine_rust.Prelude.Int.{ℤ, pos, pos_part, ltb_ℤ}
use x_engine_rust.Obj.{Obj, EnvId, nil, is_nil}
use x_engine_rust.Objects.{Objects, data_word, first, rest}
use x_engine_rust.Value.{list, is_env, env_id, as_int}
use x_engine_rust.Env.{lookup}
use x_engine_rust.Pending.{nth, park_tail, value_spine}
use x_engine_rust.Num.{wrapping_add}
use x_engine_rust.Instructions.Counts.{wrap_prim, unwrap_prim}
use x_engine_rust.Engine.{
  Result, ok, unbound, not_an_environment, pass_rec, Engine, M, pure, raise, gets, reads, walks,
  makes, writes, ◌>>=◌, ◌>>◌, on_option, recorded, PrimFn,
}
use x_engine_rust.Engine.Apply.{
  eval_args, eargs, eargs_for, call_with_values_tail, apply_closure, apply_op, apply_wrapper, saved,
}
use x_engine_rust.Engine.Escape.{invoke_cont}

abbrev pub looked : Engine → Option (Option Obj) → Option (Result (Option Obj) × Engine)
looked e none = none
looked e (some v) = some (ok v, e)

unfoldable pub lookup_in : ℕ → EnvId → Obj → M (Option Obj)
unfolding lookup
lookup_in fuel env name e = looked e (lookup fuel fuel e.envs e.objects env name)

unfoldable pub sym_eval : PrimFn
unfolding lookup_in on_option raise ◌>>=◌
sym_eval h d callee form env = do
  v ← lookup_in d.fuel env form
  on_option v (raise (unbound form)) (λ o. pure o)

unfoldable pub list_eval : PrimFn
unfolding reads first rest on_option ◌>>=◌
list_eval h d callee form env = do
  head ← reads (λ s. first s form)
  args ← reads (λ s. rest s form)
  f ← d.eval head env
  r ← d.combine f args env
  on_option r (pure form) (λ v. pure v)

-- The one door of the callables: the entry in slot 0 is the index of an instruction.
unfoldable pub callable_call : PrimFn
unfolding reads data_word on_option ◌>>=◌
callable_call h d callee args env = do
  idx ← reads (λ s. data_word s callee 0)
  on_option (d.entry idx) (pure callee) (λ f. f callee args env)

unfoldable pub procedure_entry : PrimFn
unfolding apply_closure
procedure_entry h d callee args env = apply_closure d callee args env

unfoldable pub operative_entry : PrimFn
unfolding apply_op
operative_entry h d callee args env = apply_op d callee args env

unfoldable pub wrap_entry : PrimFn
unfolding apply_wrapper
wrap_entry h d callee args env = apply_wrapper d callee args env

unfoldable pub cont_entry : PrimFn
unfolding eargs invoke_cont ◌>>=◌
cont_entry h d callee args env = do
  vals ← eargs d args env 1
  invoke_cont callee (get_or vals 0 nil)

-- `n` steps of `rest` that end at nil.
unfoldable pub drop_cells : ℕ → Objects → Obj → Obj
unfolding rest
drop_cells zero s at = at
drop_cells (suc n) s at = if is_nil at then at else drop_cells n s (rest s at)

unfoldable pub take_cells : ℕ → Objects → Obj → List Obj
unfolding first rest
take_cells zero s at = []
take_cells (suc n) s at =
    let more = take_cells n s (rest s at) in if is_nil at then [] else first s at ∷ more

-- The count of a negative index; the walk is on fuel.
unfoldable pub spine_len : ℕ → Objects → Obj → Option ℕ
unfolding rest
spine_len zero s at = if is_nil at then some 0 else none
spine_len (suc fuel) s at =
    let more : Option ℕ = elim (spine_len fuel s (rest s at)) [
      | none ↦ none
      | some n ↦ some (n + 1)
    ] in
    if is_nil at then some 0 else more

unfoldable pub nth_cell : Objects → Obj → ℤ → Obj
unfolding drop_cells first
nth_cell s at n =
    let cell = drop_cells (pos_part n) s at in
    if ltb_ℤ n (pos 0) then nil else if is_nil cell then nil else first s cell

unfoldable pub list_index : ℕ → Obj → ℤ → M Obj
unfolding reads nth_cell walks spine_len wrapping_add ◌>>=◌
list_index fuel at n =
    if ltb_ℤ n (pos 0)
    then (do
      len ← walks (λ s. spine_len fuel s at)
      reads (λ s. nth_cell s at (wrapping_add n (pos len))))
    else reads (λ s. nth_cell s at n)

unfoldable pub list_call : PrimFn
unfolding reads rest eargs as_int makes value_spine take_cells drop_cells list_index ◌>>=◌
list_call h d callee args env = if is_nil args then pure nil else (do
  two ← reads (λ s. not (is_nil (rest s args)))
  vals ← eargs d args env (if two then 2 else 1)
  x ← reads (λ s. as_int s (get_or vals 0 nil))
  y ← reads (λ s. as_int s (get_or vals 1 nil))
  if two
      then makes
          (λ s. value_spine d.fuel s (take_cells (pos_part y) s (drop_cells (pos_part x) s callee)))
      else list_index d.fuel callee x)

-- The environment of an operand, or the current one.
abbrev env_or : EnvId → Objects → Obj → EnvId
env_or env s o = if is_env s o then env_id s o else env

unfoldable pub eval_in : PrimFn
unfolding reads nth rest writes park_tail first is_env env_id saved recorded ◌>>=◌
eval_in h d callee args env = do
  form ← reads (λ s. nth s args 0)
  expr ← d.eval form env
  cell ← reads (λ s. rest s args)
  if is_nil cell then writes (λ s. park_tail s expr env) >> pure nil else (do
    env_form ← reads (λ s. first s cell)
    o ← d.eval env_form env
    target ← reads (λ s. env_or env s o)
    saved d target (recorded pass_rec (d.eval expr target)))

unfoldable pub eval_here : PrimFn
unfolding reads nth recorded ◌>>=◌
eval_here h d callee args env = do
  form ← reads (λ s. nth s args 0)
  expr ← d.eval form env
  recorded pass_rec (d.eval expr env)

-- The prefix of the arguments, and the items of the last.
unfoldable pub splice : ℕ → Objects → List Obj → Option (List Obj)
unfolding list
splice fuel s [] = some []
splice fuel s (last ∷ []) = list fuel s last
splice fuel s (v ∷ w ∷ vals) = elim (splice fuel s (w ∷ vals)) [
  | none ↦ none
  | some more ↦ some (v ∷ more)
]

unfoldable pub apply_prim : PrimFn
unfolding reads nth rest eval_args walks splice call_with_values_tail ◌>>=◌
apply_prim h d callee args env = do
  f_form ← reads (λ s. nth s args 0)
  f ← d.eval f_form env
  spine ← reads (λ s. rest s args)
  evaled ← eval_args d spine env
  vals ← walks (λ s. splice d.fuel s evaled)
  call_with_values_tail d f vals env

unfoldable pub base_prim : PrimFn
unfolding eargs_for gets ◌>>=◌
base_prim h d callee args env = do
  vals ← eargs_for d callee args env 0
  gets (λ (e : Engine). e.base)

unfoldable pub wrap_row : PrimFn
unfolding eargs_for makes wrap_prim ◌>>=◌
wrap_row h d callee args env = do
  vals ← eargs_for d callee args env 1
  makes (λ s. wrap_prim d.fuel s (get_or vals 0 nil))

unfoldable pub unwrap_row : PrimFn
unfolding eargs_for reads unwrap_prim ◌>>=◌
unwrap_row h d callee args env = do
  vals ← eargs_for d callee args env 1
  reads (λ s. unwrap_prim s (get_or vals 0 nil))

unfoldable pub tail_eval : PrimFn
unfolding eargs_for reads is_env env_id raise writes park_tail ◌>>=◌
tail_eval h d callee args env = do
  vals ← eargs_for d callee args env 2
  let form = get_or vals 0 nil
  let o = get_or vals 1 nil
  named ← reads (λ s. is_env s o)
  target ← reads (λ s. env_id s o)
  if named then writes (λ s. park_tail s form target) >> pure nil else raise (not_an_environment o)
