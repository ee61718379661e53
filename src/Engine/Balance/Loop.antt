-- ===== src/Engine/Balance/Loop.antt =====
-- src/eval.rs: the loop of the evaluator. A round is balanced; the loop keeps its form and its
-- environment in one slot of each stack, and drops both at its end.
use mathlib.Core.Path.{subst}
use mathlib.Core.List.{append_assoc}
use mathlib.Core.Option.{some-injective, none-ne-some}
use x_engine_rust.Prelude.{
  ℕ, zero, suc, ◌+◌, ◌≡◌, refl, ap, ◌∙◌, Option, none, some, List, [], ◌∷◌, ◌++◌, arith, length,
  set, Bool-cases, inl, inr,
}
use x_engine_rust.Obj.{Obj, EnvId}
use x_engine_rust.Objects.{meta_stamped}
use x_engine_rust.Engine.{
  Result, ok, err, Engine, pure, out_of_fuel, modify, continue, ◌>>=◌, ◌>>◌, take, root_truncate,
  env_root_truncate, Host, Door, PrimDef, prim_at,
}
use x_engine_rust.Engine.Run.{
  publish, clear_flag, stop_check, limit_check, locate, Round, done, again, on_round, stress,
  run_hook, count_down, dispatch, round, replace_slots, trampoline, returned,
}
use x_engine_rust.Engine.Balance.{
  After, Same, Apart, Balanced, Balanced-modify, Balanced-bind, Balanced-if, Balanced-pure,
}
use x_engine_rust.Engine.Balance.Doors.{
  steps, IsBalanced, call_with_values-Balanced, apply_closure_values-Balanced,
}
use x_engine_rust.Engine.Balance.Rows.{IsStep, collect-Balanced}
use x_engine_rust.Engine.Balance.Tables.{AllSteps}

-- Machine code leaves the stacks as it found them.
pub record LeavesStacks (h : Host) : Type 0 where
  pub at :
      (addr : ℕ) (words : List ℕ) (e : Engine)
      → After (Same e) (returned (h.call_ints addr words e))

publish-Apart : (e : Engine) → Apart e (publish e)
unfolding publish
publish-Apart e = record {
  roots = refl;
  env_roots = refl;
  control = refl;
  evals = refl;
  bases = refl;
  base = refl;
}

clear_flag-Apart : (e : Engine) → Apart e (clear_flag e)
unfolding clear_flag
clear_flag-Apart e = record {
  roots = refl;
  env_roots = refl;
  control = refl;
  evals = refl;
  bases = refl;
  base = refl;
}

Apart-refl : (e : Engine) → Apart e e
Apart-refl e = record {
  roots = refl;
  env_roots = refl;
  control = refl;
  evals = refl;
  bases = refl;
  base = refl;
}

countdown-Apart : (n : ℕ) (e : Engine) → Apart e (record e { stress_countdown = n })
countdown-Apart n e = record {
  roots = refl;
  env_roots = refl;
  control = refl;
  evals = refl;
  bases = refl;
  base = refl;
}

locate-Apart : (form : Obj) (e : Engine) → Apart e (locate form e)
unfolding locate
locate-Apart form e = elim (Bool-cases (meta_stamped e.objects form)) [
  | inl has ↦ rw has (record {
    roots = refl;
    env_roots = refl;
    control = refl;
    evals = refl;
    bases = refl;
    base = refl;
  })
  | inr not ↦ rw not (Apart-refl e)
]

stop_check-Balanced : Balanced stop_check
unfolding stop_check
stop_check-Balanced = search (steps, Balanced-modify, clear_flag-Apart)

limit_check-Balanced : Balanced limit_check
unfolding limit_check
limit_check-Balanced = search steps

pub prim_at-IsStep :
    (prims : List PrimDef) (idx : ℕ)
    → AllSteps prims
    → (def : PrimDef) → prim_at prims idx ≡ some def
    → IsStep def.f
prim_at-IsStep [] idx all def e = absurd (none-ne-some def e)
prim_at-IsStep (p ∷ prims) zero (z, all) def e = subst (λ q. IsStep q.f) (some-injective p def e) z
prim_at-IsStep (p ∷ prims) (suc idx) (z, all) def e = prim_at-IsStep prims idx all def e

module _ (prims : List PrimDef) (all : AllSteps prims) (h : Host) (d : Door)
    (b : IsBalanced d) where
  count_down-Balanced : (every left : ℕ) → Balanced (count_down prims h d every left)
  unfolding count_down
  count_down-Balanced every left =
      Balanced-if _ _ _
        (Balanced-bind _ _ (Balanced-modify _ (countdown-Apart every))
          (λ u. Balanced-bind _ _ (collect-Balanced h d b) (λ v. Balanced-pure tt)))
        (Balanced-modify _ (countdown-Apart left))

  stress-Balanced : Balanced (stress prims h d)
  unfolding stress
  stress-Balanced = search (steps, count_down-Balanced) depth 12

  run_hook-Balanced : (hook form : Obj) (env : EnvId) → Balanced (run_hook prims h d hook form env)
  unfolding run_hook
  run_hook-Balanced hook form env =
      let row = λ (idx : ℕ) (def : PrimDef) (e : prim_at prims idx ≡ some def).
        (prim_at-IsStep prims idx all def e).at h d b hook form env in
      search (steps, row, apply_closure_values-Balanced d b, call_with_values-Balanced d b) depth 9

  dispatch-Balanced : (form : Obj) (env : EnvId) → Balanced (dispatch prims h d form env)
  unfolding dispatch
  dispatch-Balanced form env = search (steps, run_hook-Balanced) depth 9

  pub round-Balanced : (form : Obj) (env : EnvId) → Balanced (round prims h d form env)
  unfolding round
  round-Balanced form env =
      search
        (
          steps, Balanced-modify, publish-Apart, locate-Apart, stop_check-Balanced,
          limit_check-Balanced, stress-Balanced, dispatch-Balanced,
        )
        depth 9

-- The slots of the loop hold a form and an environment; all else is as it was.
pub record Slotted (e e' : Engine) : Type 0 where
  pub form : Obj
  pub more : List Obj
  pub env : EnvId
  pub roots : e'.roots ≡ e.roots ++ form ∷ more
  pub env_roots : e'.env_roots ≡ e.env_roots ++ env ∷ []
  pub control : e'.control ≡ e.control
  pub evals : e'.active_evals ≡ e.active_evals
  pub bases : e'.base_stack ≡ e.base_stack
  pub base : e'.base ≡ e.base

pub Slotted-Same : {e e' e'' : Engine} → Slotted e e' → Same e' e'' → Slotted e e''
Slotted-Same {e} x y = record {
  form = x.form;
  more = x.more ++ y.more;
  env = x.env;
  roots = y.roots ∙ ap (λ z. z ++ y.more) x.roots ∙ append_assoc e.roots (x.form ∷ x.more) y.more;
  env_roots = y.env_roots ∙ x.env_roots;
  control = y.control ∙ x.control;
  evals = y.evals ∙ x.evals;
  bases = y.bases ∙ x.bases;
  base = y.base ∙ x.base;
}

-- The slot is written, and what was above it is gone.
set-take-append :
    {A : Type 0} (xs more : List A) (x y : A)
    → set (take (xs ++ x ∷ more) (suc (length xs))) (length xs) y ≡ xs ++ y ∷ []
set-take-append [] [] x y = refl
set-take-append [] (z ∷ more) x y = refl
set-take-append (w ∷ xs) more x y = ap (λ z. w ∷ z) (set-take-append xs more x y)

pub slot_written :
    {A : Type 0} (xs ys more : List A) (x y : A)
    → ys ≡ xs ++ x ∷ more
    → set (take ys (length xs + 1)) (length xs) y ≡ xs ++ y ∷ []
slot_written xs ys more x y e =
    ap (λ z. set (take z (length xs + 1)) (length xs) y) e
    ∙ ap (λ n. set (take (xs ++ x ∷ more) n) (length xs) y) (omega arith)
    ∙ set-take-append xs more x y

module _ (prims : List PrimDef) (all : AllSteps prims) (h : Host) (d : Door)
    (b : IsBalanced d) where
  next-Slotted :
      (rounds : ℕ) (e : Engine)
      → ((e' : Engine) (form : Obj) (env : EnvId)
          → Slotted e e'
          → After
              (Slotted e)
              (trampoline prims h d rounds (length e.roots) (length e.env_roots) form env e'))
      → (x : Option (Result Round × Engine)) → After (Slotted e) x
      → After (Slotted e) (
          continue
            (λ r. on_round r pure (λ form env.
              replace_slots prims h d (length e.roots) (length e.env_roots) form env
              >> trampoline prims h d rounds (length e.roots) (length e.env_roots) form env))
            x)
  unfolding on_round pure replace_slots root_truncate env_root_truncate modify ◌>>=◌
  next-Slotted rounds e ih none s = tt
  next-Slotted rounds e ih (some (err c, e')) s = s
  next-Slotted rounds e ih (some (ok (done v), e')) s = s
  next-Slotted rounds e ih (some (ok (again form env), e')) s = ih _ form env (record {
    form = form;
    more = [];
    env = env;
    roots = slot_written e.roots e'.roots s.more s.form form s.roots;
    env_roots = slot_written e.env_roots e'.env_roots [] s.env env s.env_roots;
    control = s.control;
    evals = s.evals;
    bases = s.bases;
    base = s.base;
  })

  After-Slotted :
      (e e' : Engine) (x : Option (Result Round × Engine))
      → Slotted e e'
      → After (Same e') x
      → After (Slotted e) x
  After-Slotted e e' none s t = tt
  After-Slotted e e' (some (r, e'')) s t = Slotted-Same s t

  pub trampoline-Slotted :
      (rounds : ℕ) (e e' : Engine) (form : Obj) (env : EnvId)
      → Slotted e e'
      → After
          (Slotted e)
          (trampoline prims h d rounds (length e.roots) (length e.env_roots) form env e')
  unfolding trampoline out_of_fuel ◌>>=◌
  trampoline-Slotted zero e e' form env s = tt
  trampoline-Slotted (suc rounds) e e' form env s =
      next-Slotted rounds e (λ e'. trampoline-Slotted rounds e e') (round prims h d form env e')
        (After-Slotted e e' (round prims h d form env e') s
          ((round-Balanced prims all h d b form env).at e'))
