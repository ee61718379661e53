-- ===== src/Engine/Balance/Closed.antt =====
-- src/eval.rs: evaluation through the doors that are tied on fuel. It leaves every stack as it was,
-- with the value on the roots where it answers, whatever the instructions did in between.
use mathlib.Core.List.{append-nil}
use mathlib.Core.Path.{subst}
use mathlib.Core.Option.{some-injective, none-ne-some}
use x_engine_rust.Prelude.{
  ℕ, zero, suc, ◌+◌, ◌-◌, ◌≡◌, refl, sym, ap, ◌∙◌, Bool, true, false, Option, none, some, List, [],
  ◌∷◌, ◌++◌, arith, if◌then◌else◌, length,
}
use x_engine_rust.Obj.{Obj, EnvId}
use x_engine_rust.Engine.{
  Result, ok, err, Engine, M, pure, raise, of, gets, modify, caught, attempt, continue, ◌>>=◌, ◌>>◌,
  on_result, take, root_push, root_truncate, env_root_push, env_root_truncate, Host, Door, PrimDef,
  prim_at,
}
use x_engine_rust.Engine.Run.{
  eval_pending, eval_with, returned, apply_foreign, call_hook, combine_with, entry_of, stuck_entry,
  door,
}
use x_engine_rust.Engine.Tables.{instructions}
use x_engine_rust.Engine.Balance.{
  After, Same, Apart, Balanced, Balanced-modify, Balanced-out_of_fuel, take-append,
}
use x_engine_rust.Engine.Balance.Doors.{steps, IsBalanced, eval_call-Balanced}
use x_engine_rust.Engine.Balance.Rows.{IsStep}
use x_engine_rust.Engine.Balance.Tables.{AllSteps, instructions-AllSteps}
use x_engine_rust.Engine.Balance.Loop.{Slotted, trampoline-Slotted, prim_at-IsStep, LeavesStacks}

-- Every stack is as it was, with `more` on the roots.
pub record Restored (e : Engine) (more : List Obj) (e' : Engine) : Type 0 where
  pub roots : e'.roots ≡ e.roots ++ more
  pub env_roots : e'.env_roots ≡ e.env_roots
  pub control : e'.control ≡ e.control
  pub evals : e'.active_evals ≡ e.active_evals
  pub bases : e'.base_stack ≡ e.base_stack
  pub base : e'.base ≡ e.base

-- What an evaluation leaves on the roots.
abbrev pub pushed : Result Obj → List Obj
pushed (ok v) = v ∷ []
pushed (err c) = []

abbrev pub Answers : Engine → Option (Result Obj × Engine) → Type 0
Answers e none = Unit {0}
Answers e (some (r, e')) = Restored e (pushed r) e'

-- The stacks are exactly as before.
record Exact (e e' : Engine) : Type 0 where
  roots : e'.roots ≡ e.roots
  env_roots : e'.env_roots ≡ e.env_roots
  control : e'.control ≡ e.control
  evals : e'.active_evals ≡ e.active_evals
  bases : e'.base_stack ≡ e.base_stack
  base : e'.base ≡ e.base

dropped-Exact :
    (e : Engine) (x : Option (Result Obj × Engine))
    → After (Slotted e) x
    → After (Exact e) (
        continue
          (λ (out : Result Obj).
            root_truncate (length e.roots) >> (env_root_truncate (length e.env_roots) >> of out))
          (caught x))
unfolding root_truncate env_root_truncate of ◌>>=◌
dropped-Exact e none s = tt
dropped-Exact e (some (r, e')) s = record {
  roots = ap (λ z. take z (length e.roots)) s.roots ∙ take-append e.roots (s.form ∷ s.more);
  env_roots =
      ap (λ z. take z (length e.env_roots)) s.env_roots ∙ take-append e.env_roots (s.env ∷ []);
  control = s.control;
  evals = s.evals;
  bases = s.bases;
  base = s.base;
}

abbrev one_deeper : Engine → Engine
one_deeper e = record e { active_evals = e.active_evals + 1 }

counted-Answers :
    (e : Engine) (x : Option (Result Obj × Engine))
    → After (Exact (one_deeper e)) x
    → Answers e (
        continue
          (λ (r : Result Obj).
            modify (λ (e : Engine). record e { active_evals = e.active_evals - 1 })
            >> on_result r (λ v. root_push v >> pure v) raise)
          (caught x))
unfolding modify on_result root_push pure raise ◌>>=◌
counted-Answers e none s = tt
counted-Answers e (some (ok v, e')) s = record {
  roots = ap (λ z. z ++ v ∷ []) s.roots;
  env_roots = s.env_roots;
  control = s.control;
  evals = ap (λ n. n - 1) s.evals ∙ omega arith;
  bases = s.bases;
  base = s.base;
}
counted-Answers e (some (err c, e')) s = record {
  roots = s.roots ∙ sym (append-nil e.roots);
  env_roots = s.env_roots;
  control = s.control;
  evals = ap (λ n. n - 1) s.evals ∙ omega arith;
  bases = s.bases;
  base = s.base;
}

Answers-Same : (e : Engine) (x : Option (Result Obj × Engine)) → Answers e x → After (Same e) x
Answers-Same e none s = tt
Answers-Same e (some (r, e')) s = record {
  more = pushed r;
  roots = s.roots;
  env_roots = s.env_roots;
  control = s.control;
  evals = s.evals;
  bases = s.bases;
  base = s.base;
}

module _ (prims : List PrimDef) (all : AllSteps prims) (h : Host) where
  eval_pending-Exact :
      (d : Door)
      → IsBalanced d
      → (rounds : ℕ) (form : Obj) (env : EnvId) (e : Engine)
      → After (Exact e) (eval_pending prims h d rounds form env e)
  unfolding eval_pending gets attempt root_push env_root_push ◌>>=◌
  eval_pending-Exact d b rounds form env e =
      let e' = record e { roots = e.roots ++ form ∷ []; env_roots = e.env_roots ++ env ∷ [] } in
      dropped-Exact e _ (
        trampoline-Slotted prims all h d b rounds e e' form env (record {
          form = form;
          more = [];
          env = env;
          roots = refl;
          env_roots = refl;
          control = refl;
          evals = refl;
          bases = refl;
          base = refl;
        }))

  eval_with-Answers :
      (d : Door)
      → IsBalanced d
      → (rounds : ℕ) (form : Obj) (env : EnvId) (e : Engine)
      → Answers e (eval_with prims h d rounds form env e)
  unfolding eval_with modify attempt ◌>>=◌
  eval_with-Answers d b rounds form env e =
      counted-Answers e _ (eval_pending-Exact d b rounds form env (one_deeper e))

  jit_env-Apart : (env : Option EnvId) (e : Engine) → Apart e (record e { jit_env = env })
  jit_env-Apart env e = record {
    roots = refl;
    env_roots = refl;
    control = refl;
    evals = refl;
    bases = refl;
    base = refl;
  }

  machine-Balanced :
      LeavesStacks h
      → (addr : ℕ) (words : List ℕ) → Balanced (λ e. returned (h.call_ints addr words e))
  machine-Balanced foreign addr words = record { at = foreign.at addr words }

  apply_foreign-Balanced :
      LeavesStacks h
      → (d : Door) (callee args : Obj) (env : EnvId)
      → Balanced (apply_foreign prims h d callee args env)
  unfolding apply_foreign
  apply_foreign-Balanced foreign d callee args env =
      search (steps, machine-Balanced foreign, Balanced-modify, jit_env-Apart) depth 12

  chosen-IsStep :
      (b : Bool) (idx : ℕ) (def : PrimDef)
      → (if b then prim_at prims idx else none) ≡ some def
      → IsStep def.f
  chosen-IsStep true idx def e = prim_at-IsStep prims idx all def e
  chosen-IsStep false idx def e = absurd (none-ne-some def e)

  call_hook-Balanced :
      (d : Door)
      → IsBalanced d
      → (hook callee args : Obj) (env : EnvId) → Balanced (call_hook prims h d hook callee args env)
  unfolding call_hook
  call_hook-Balanced d b hook callee args env =
      let row =
        λ (b' : Bool) (idx : ℕ) (def : PrimDef)
            (e : (if b' then prim_at prims idx else none) ≡ some def).
          (chosen-IsStep b' idx def e).at h d b callee args env in
      search (steps, eval_call-Balanced d b, row) depth 10

  combine_with-Balanced :
      LeavesStacks h
      → (d : Door) → IsBalanced d
      → (callee args : Obj) (env : EnvId) → Balanced (combine_with prims h d callee args env)
  unfolding combine_with
  combine_with-Balanced foreign d b callee args env =
      search (steps, apply_foreign-Balanced foreign d, call_hook-Balanced d b) depth 10

  stuck_entry-Balanced :
      (o : Option PrimDef) (f : Obj → Obj → EnvId → M Obj)
      → stuck_entry o ≡ some f
      → (callee args : Obj) (env : EnvId) → Balanced (f callee args env)
  stuck_entry-Balanced none f e callee args env = absurd (none-ne-some f e)
  stuck_entry-Balanced (some def) f e callee args env =
      subst (λ g. Balanced (g callee args env)) (some-injective _ f e) Balanced-out_of_fuel

  entry_of-Balanced :
      (d : Door)
      → IsBalanced d
      → (o : Option PrimDef) (f : Obj → Obj → EnvId → M Obj)
      → ((def : PrimDef) → o ≡ some def → IsStep def.f)
      → entry_of h d o ≡ some f
      → (callee args : Obj) (env : EnvId) → Balanced (f callee args env)
  entry_of-Balanced d b none f row e callee args env = absurd (none-ne-some f e)
  entry_of-Balanced d b (some def) f row e callee args env =
      subst (λ g. Balanced (g callee args env)) (some-injective (def.f h d) f e)
        ((row def refl).at h d b callee args env)

  pub door-IsBalanced : LeavesStacks h → (n : ℕ) → IsBalanced (door prims h n)
  unfolding door
  door-IsBalanced foreign zero = record {
    eval = λ form env. Balanced-out_of_fuel;
    combine = λ callee args env. Balanced-out_of_fuel;
    entry = λ idx. stuck_entry-Balanced (prim_at prims idx);
  }
  door-IsBalanced foreign (suc n) =
      let b = door-IsBalanced foreign n in
      record {
        eval = λ form env. record {
          at = λ e. Answers-Same e _ (eval_with-Answers (door prims h n) b (suc n) form env e);
        };
        combine = combine_with-Balanced foreign (door prims h n) b;
        entry = λ idx f.
            entry_of-Balanced (door prims h n) b (prim_at prims idx) f
              (λ def. prim_at-IsStep prims idx all def);
      }

  eval-Answers :
      LeavesStacks h
      → (n : ℕ) (form : Obj) (env : EnvId) (e : Engine)
      → Answers e ((door prims h n).eval form env e)
  unfolding door
  eval-Answers foreign zero form env e = tt
  eval-Answers foreign (suc n) form env e =
      eval_with-Answers (door prims h n) (door-IsBalanced foreign n) (suc n) form env e

-- An evaluation with any of the instructions that are modelled, on any fuel: when it ends, with a
-- value or with a failure, the environment roots, the control records, the count of evaluations, the
-- stack of bases and the base are as they were, and the roots have the value on top and nothing else.
-- The machine code that is called leaves the stacks as it found them.
pub eval-Restored :
    (h : Host)
    → LeavesStacks h
    → (n : ℕ) (form : Obj) (env : EnvId) (e e' : Engine) (r : Result Obj)
    → (door instructions h n).eval form env e ≡ some (r, e')
    → Restored e (pushed r) e'
eval-Restored h foreign n form env e e' r eq =
    subst (Answers e) eq (eval-Answers instructions instructions-AllSteps h foreign n form env e)
