-- ===== src/Engine/Run.antt =====
-- src/eval.rs: the loop of the evaluator and its dispatch. The doors are tied on fuel: one unit for
-- each evaluation inside of another, and for each round of a loop.
use x_engine_rust.Prelude.{
  ℕ, zero, suc, ◌+◌, ◌-◌, ◌*◌, Bool, false, not, ◌&&◌, ◌||◌, Option, none, some, List, [], ◌∷◌,
  ◌==◌, if◌then◌else◌, ltb, set,
}
use x_engine_rust.Prelude.Int.{beq_ℤ, pos}
use x_engine_rust.Obj.{Obj, EnvId, nil, is_nil, word_bytes}
use x_engine_rust.Heap.{words_len, address_of, from_real}
use x_engine_rust.Objects.{Objects, set_data, type_of_word, meta_stamped, meta_i}
use x_engine_rust.Objects.Kinds.{codes}
use x_engine_rust.Value.{is_prim, is_closure, is_foreign, prim_idx, foreign_addr, as_int}
use x_engine_rust.Value.Make.{pair, env_obj}
use x_engine_rust.Typed.{call, eval, type_handler}
use x_engine_rust.Typed.Builtin.{obj_type}
use x_engine_rust.Pending.{handler_active, tail_take}
use x_engine_rust.Instructions.Counts.{set_live_line, alloc_count}
use x_engine_rust.Engine.{
  engine_msg, alloc_exceeded, ok, Result, Engine, M, pure, raise, of, out_of_fuel, gets, reads,
  makes, attempt, modify, ◌>>=◌, ◌>>◌, on_option, on_result, root_push, root_truncate, root_mark,
  env_root_push, env_root_truncate, env_root_mark, Host, Door, PrimDef, prim_at,
}
use x_engine_rust.Engine.Apply.{call_with_values, apply_closure_values, eval_call}
use x_engine_rust.Engine.Gc.{collect}

-- `interrupted`, which takes the flag of the signal handler.
abbrev pub interrupted : List Bool → Bool
interrupted [] = false
interrupted (b ∷ later) = b

abbrev pub later : List Bool → List Bool
later [] = []
later (b ∷ bs) = bs

-- An interrupt is written to its object.
unfoldable pub publish : Engine → Engine
unfolding set_data
publish e =
    let s = e.objects in
    record e {
      interrupts = later e.interrupts;
      objects = if interrupted e.interrupts then set_data s e.sigint_flag 0 1 else s;
    }

-- Whether a flag is set that a guard can catch.
unfoldable pub must_stop : Engine → Bool
unfolding handler_active as_int
must_stop e = handler_active e.objects && not (beq_ℤ (as_int e.objects e.sigint_flag) (pos 0))

unfoldable pub clear_flag : Engine → Engine
unfolding set_data
clear_flag e = record e { objects = set_data e.objects e.sigint_flag 0 0 }

unfoldable pub stop_check : M (Unit {0})
unfolding gets must_stop modify clear_flag ◌>>=◌
stop_check = do
  stop ← gets must_stop
  if stop then modify clear_flag >> raise (engine_msg (codes "STOP")) else pure tt

abbrev pub over_limit : Engine → Bool
over_limit e = elim e.alloc_limit [ none ↦ false | some limit ↦ ltb limit (alloc_count e.objects) ]

unfoldable pub limit_check : M (Unit {0})
unfolding gets raise ◌>>=◌
limit_check = do over ← gets over_limit; if over then raise alloc_exceeded else pure tt

-- The line and the file of a form that has them.
unfoldable pub locate : Obj → Engine → Engine
unfolding meta_stamped meta_i set_live_line
locate form e =
    if meta_stamped e.objects form
    then record e {
      objects = set_live_line e.objects (meta_i e.objects form 0);
      live_file = meta_i e.objects form 1;
    }
    else e

-- What a round of the loop leaves: a value, or a form in tail position.
pub data Round : Type 0 where
  done : Obj → Round
  again : Obj → EnvId → Round

unfoldable pub on_round : Round → (Obj → M Obj) → (Obj → EnvId → M Obj) → M Obj
on_round (done v) f g = f v
on_round (again form env) f g = g form env

abbrev pub returned : Option (ℕ × Engine) → Option (Result ℕ × Engine)
returned none = none
returned (some (out, e)) = some (ok out, e)

module _ (prims : List PrimDef) (h : Host) (d : Door) where
  unfoldable pub count_down : ℕ → ℕ → M (Unit {0})
  unfolding modify collect ◌>>=◌
  count_down every left =
      if left == 0
      then (do modify (λ (e : Engine). record e { stress_countdown = every }); collect d; pure tt)
      else modify (λ (e : Engine). record e { stress_countdown = left })

  -- A collection each time that the countdown of a stress run ends.
  unfoldable pub stress : M (Unit {0})
  unfolding gets count_down ◌>>=◌
  stress = do
    every ← gets (λ (e : Engine). e.gc_stress)
    left ← gets (λ (e : Engine). e.stress_countdown - 1)
    if every == 0 then pure tt else count_down every left

  -- An instruction gets the form as written; a closure the value and the environment.
  unfoldable pub run_hook : Obj → Obj → EnvId → M Obj
  unfolding reads is_prim prim_idx on_option is_closure makes env_obj apply_closure_values
      call_with_values ◌>>=◌
  run_hook hook form env = do
    prim ← reads (λ s. is_prim s hook)
    idx ← reads (λ s. prim_idx s hook)
    closure ← reads (λ s. is_closure s hook)
    if prim
        then on_option (prim_at prims idx) (pure form) (λ def. def.f h d hook form env)
        else if closure
        then (do
          env_o ← makes (λ s. env_obj d.fuel s env)
          apply_closure_values d hook (form ∷ env_o ∷ []))
        else call_with_values d hook (form ∷ []) env

  unfoldable pub dispatch : Obj → EnvId → M Round
  unfolding reads type_of_word type_handler run_hook makes tail_take on_option ◌>>=◌
  dispatch form env = do
    ty ← reads (λ s. type_of_word s form)
    label ← reads (λ s. is_nil ty || ty == s.spair_marker || ty == s.satom_marker)
    hook ← reads (λ s. type_handler s ty eval)
    if label || is_nil hook then pure (done form) else (do
      answer ← run_hook hook form env
      t ← makes (λ s. some (tail_take s))
      on_option t (pure (done answer)) (λ p. pure (again p.0 p.1)))

  unfoldable pub round : Obj → EnvId → M Round
  unfolding modify publish stop_check stress limit_check locate dispatch ◌>>=◌
  round form env = do
    modify publish
    stop_check
    stress
    limit_check
    if is_nil form then pure (done nil) else modify (locate form) >> dispatch form env

  -- The two slots of the loop, with all above them dropped.
  unfoldable pub replace_slots : ℕ → ℕ → Obj → EnvId → M (Unit {0})
  unfolding root_truncate env_root_truncate modify ◌>>=◌
  replace_slots slot env_slot form env = do
    root_truncate (slot + 1)
    modify (λ (e : Engine). record e { roots = set e.roots slot form })
    env_root_truncate (env_slot + 1)
    modify (λ (e : Engine). record e { env_roots = set e.env_roots env_slot env })

  unfoldable pub trampoline : ℕ → ℕ → ℕ → Obj → EnvId → M Obj
  unfolding round on_round replace_slots ◌>>=◌
  trampoline zero slot env_slot form env = out_of_fuel
  trampoline (suc rounds) slot env_slot form env = do
    r ← round form env
    on_round r pure (λ f v. replace_slots slot env_slot f v >> trampoline rounds slot env_slot f v)

  unfoldable pub eval_pending : ℕ → Obj → EnvId → M Obj
  unfolding gets root_push env_root_push attempt trampoline root_truncate env_root_truncate ◌>>=◌
  eval_pending rounds form env = do
    mark ← gets root_mark
    root_push form
    env_mark ← gets env_root_mark
    env_root_push env
    out ← attempt (trampoline rounds mark env_mark form env)
    root_truncate mark
    env_root_truncate env_mark
    of out

  -- `Engine::eval`.
  unfoldable pub eval_with : ℕ → Obj → EnvId → M Obj
  unfolding modify attempt eval_pending on_result root_push ◌>>=◌
  eval_with rounds form env = do
    modify (λ (e : Engine). record e { active_evals = e.active_evals + 1 })
    r ← attempt (eval_pending rounds form env)
    modify (λ (e : Engine). record e { active_evals = e.active_evals - 1 })
    on_result r (λ v. root_push v >> pure v) raise

  -- A word that machine code answers, as an offset or as an address of the process.
  abbrev adopt : Objects → ℕ → Obj
  adopt s out =
      if out == 0
      then nil
      else if ltb out (words_len s.heap * word_bytes)
      then out
      else elim (from_real h.arena s.heap out) [ none ↦ nil | some at ↦ at ]

  unfoldable pub apply_foreign : Obj → Obj → EnvId → M Obj
  unfolding reads foreign_addr gets makes pair modify from_real ◌>>=◌
  apply_foreign callee args env = do
    addr ← reads (λ s. foreign_addr s callee)
    base ← gets (λ (e : Engine). if is_nil e.base then 0 else address_of h.arena e.base)
    spine ← makes (λ s. pair d.fuel s callee args)
    prev ← gets (λ (e : Engine). e.jit_env)
    modify (λ (e : Engine). record e { jit_env = some env })
    out ← λ (e : Engine). returned (h.call_ints addr (base ∷ address_of h.arena spine ∷ []) e)
    modify (λ (e : Engine). record e { jit_env = prev })
    reads (λ s. adopt s out)

  -- The call handler of the callee's type: an instruction, or an operative that takes the callee
  -- and the arguments as written.
  unfoldable pub call_hook : Obj → Obj → Obj → EnvId → M (Option Obj)
  unfolding reads is_prim prim_idx makes pair eval_call on_option ◌>>=◌
  call_hook hook callee args env = do
    prim ← reads (λ s. is_prim s hook)
    idx ← reads (λ s. prim_idx s hook)
    on_option (if prim then prim_at prims idx else none)
        (do
          spine ← makes (λ s. pair d.fuel s callee args)
          v ← eval_call d hook spine env
          pure (some v))
        (λ def. do v ← def.f h d callee args env; pure (some v))

  -- `Engine::combine`.
  unfoldable pub combine_with : Obj → Obj → EnvId → M (Option Obj)
  unfolding reads is_foreign apply_foreign makes obj_type type_handler call_hook ◌>>=◌
  combine_with callee args env = do
    foreign ← reads (λ s. is_foreign s callee)
    if foreign then (do v ← apply_foreign callee args env; pure (some v)) else (do
      ty ← makes (λ s. obj_type d.fuel s callee)
      hook ← reads (λ s. if is_nil ty then nil else type_handler s ty call)
      if is_nil hook then pure none else call_hook hook callee args env)

-- The instruction at a place of the table, over the doors below.
abbrev pub entry_of : Host → Door → Option PrimDef → Option (Obj → Obj → EnvId → M Obj)
entry_of h d none = none
entry_of h d (some def) = some (def.f h d)

abbrev pub stuck_entry : Option PrimDef → Option (Obj → Obj → EnvId → M Obj)
stuck_entry none = none
stuck_entry (some def) = some (λ callee args env. out_of_fuel)

unfoldable pub door : List PrimDef → Host → ℕ → Door
unfolding eval_with combine_with
door prims h zero = record {
  fuel = 0;
  eval = λ form env. out_of_fuel;
  combine = λ callee args env. out_of_fuel;
  entry = λ idx. stuck_entry (prim_at prims idx);
}
door prims h (suc n) = record {
  fuel = suc n;
  eval = eval_with prims h (door prims h n) (suc n);
  combine = combine_with prims h (door prims h n);
  entry = λ idx. entry_of h (door prims h n) (prim_at prims idx);
}
