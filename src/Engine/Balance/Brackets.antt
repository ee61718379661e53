-- ===== src/Engine/Balance/Brackets.antt =====
-- The brackets that push on a stack, run an action and take off what they pushed.
use mathlib.Core.List.{append_assoc, append-nil}
use x_engine_rust.Prelude.{
  ℕ, ◌-◌, ◌≡◌, refl, sym, ap, ◌∙◌, inl, inr, Option, none, some, List, [], ◌∷◌, ◌++◌, arith, ◌==◌,
  length, length-append, Bool-cases,
}
use x_engine_rust.Obj.{Obj, EnvId}
use x_engine_rust.Engine.{
  Result, ok, ControlRec, Engine, M, pure, of, gets, caught, attempt, modify, continue, ◌>>=◌, ◌>>◌,
  take, root_push, root_truncate, env_root_push, env_root_truncate, control_push, control_pop,
  push_roots, rooted, env_rooted, recorded,
}
use x_engine_rust.Engine.Bases.{enter_base, leave_base, in_base}
use x_engine_rust.Engine.Balance.{After, Same, Balanced, Apart-Same, take-append}

-- A stack with one more on top, less its top.
take_top : {A : Type 0} (xs ys : List A) (x : A) → ys ≡ xs ++ x ∷ [] → take ys (length ys - 1) ≡ xs
take_top xs ys x e =
    ap (λ z. take z (length z - 1)) e
    ∙ ap (λ k. take (xs ++ x ∷ []) k) (omega (arith, length-append {0} xs (x ∷ [])))
    ∙ take-append xs (x ∷ [])

take_more :
    {A : Type 0} (xs ys zs more : List A) → zs ≡ (xs ++ ys) ++ more → take zs (length xs) ≡ xs
take_more xs ys zs more e =
    ap (λ z. take z (length xs)) (e ∙ append_assoc xs ys more) ∙ take-append xs (ys ++ more)

take_one : {A : Type 0} (xs ys zs : List A) → zs ≡ xs ++ ys → take zs (length xs) ≡ xs
take_one xs ys zs e = ap (λ z. take z (length xs)) e ∙ take-append xs ys

abbrev with_roots : Engine → List Obj → Engine
with_roots e objs = record e { roots = objs }

abbrev with_env_root : Engine → EnvId → Engine
with_env_root e env = record e { env_roots = e.env_roots ++ env ∷ [] }

abbrev with_control : Engine → ControlRec → Engine
with_control e r = record e { control = e.control ++ r ∷ [] }

pub push_roots_form :
    (objs : List Obj) (e : Engine)
    → push_roots objs e ≡ some (ok tt, with_roots e (e.roots ++ objs))
unfolding push_roots root_push pure ◌>>=◌
push_roots_form [] e = ap (λ z. some (ok tt, with_roots e z)) (sym (append-nil e.roots))
push_roots_form (o ∷ objs) e =
    push_roots_form objs (with_roots e (e.roots ++ o ∷ []))
    ∙ ap (λ z. some (ok tt, with_roots e z)) (append_assoc e.roots (o ∷ []) objs)

pub Balanced-push_roots : (objs : List Obj) → Balanced (push_roots objs)
Balanced-push_roots objs = record {
  at = λ e. rw (push_roots_form objs e) record {
    more = objs;
    roots = refl;
    env_roots = refl;
    control = refl;
    evals = refl;
    bases = refl;
    base = refl;
  };
}

module _ {A : Type 0} where
  rooted-Same :
      (e : Engine) (objs : List Obj) (x : Option (Result A × Engine))
      → After (Same (with_roots e (e.roots ++ objs))) x
      → After
          (Same e)
          (continue (λ (out : Result A). root_truncate (length e.roots) >> of out) (caught x))
  unfolding ◌>>=◌ root_truncate of
  rooted-Same e objs none h = tt
  rooted-Same e objs (some (r, e')) h = Apart-Same (record {
    roots = take_more e.roots objs e'.roots h.more h.roots;
    env_roots = h.env_roots;
    control = h.control;
    evals = h.evals;
    bases = h.bases;
    base = h.base;
  })

  rooted_form :
      (objs : List Obj) (m : M A) (e : Engine)
      → rooted objs m e
        ≡ continue
            (λ (out : Result A). root_truncate (length e.roots) >> of out)
            (caught (m (with_roots e (e.roots ++ objs))))
  rooted_form objs m e = unfold rooted ◌>>=◌ gets attempt in rw (push_roots_form objs e) refl

  pub Balanced-rooted : (objs : List Obj) (m : M A) → Balanced m → Balanced (rooted objs m)
  Balanced-rooted objs m b = record {
    at = λ e. rw (rooted_form objs m e) (
        rooted-Same e objs (m (with_roots e (e.roots ++ objs)))
          (b.at (with_roots e (e.roots ++ objs))));
  }

  env_rooted-Same :
      (e : Engine) (env : EnvId) (x : Option (Result A × Engine))
      → After (Same (with_env_root e env)) x
      → After (Same e) (
          continue
            (λ (out : Result A). env_root_truncate (length e.env_roots) >> of out)
            (caught x))
  unfolding ◌>>=◌ env_root_truncate of
  env_rooted-Same e env none h = tt
  env_rooted-Same e env (some (r, e')) h = record {
    more = h.more;
    roots = h.roots;
    env_roots = take_one e.env_roots (env ∷ []) e'.env_roots h.env_roots;
    control = h.control;
    evals = h.evals;
    bases = h.bases;
    base = h.base;
  }

  pub Balanced-env_rooted : (env : EnvId) (m : M A) → Balanced m → Balanced (env_rooted env m)
  unfolding env_rooted ◌>>=◌ gets attempt env_root_push
  Balanced-env_rooted env m b = record {
    at = λ e. env_rooted-Same e env (m (with_env_root e env)) (b.at (with_env_root e env));
  }

  recorded-Same :
      (e : Engine) (r : ControlRec) (x : Option (Result A × Engine))
      → After (Same (with_control e r)) x
      → After (Same e) (continue (λ (out : Result A). control_pop >> of out) (caught x))
  unfolding ◌>>=◌ control_pop of
  recorded-Same e r none h = tt
  recorded-Same e r (some (out, e')) h = record {
    more = h.more;
    roots = h.roots;
    env_roots = h.env_roots;
    control = take_top e.control e'.control r h.control;
    evals = h.evals;
    bases = h.bases;
    base = h.base;
  }

  pub Balanced-recorded : (r : ℕ → ControlRec) (m : M A) → Balanced m → Balanced (recorded r m)
  unfolding recorded ◌>>=◌ gets attempt control_push
  Balanced-recorded r m b = record {
    at = λ e.
        recorded-Same e (r e.active_evals) (m (with_control e (r e.active_evals)))
          (b.at (with_control e (r e.active_evals)));
  }

  left-Same :
      (base : Obj) (e : Engine) (x : Option (Result A × Engine))
      → After (Same (enter_base base e)) x
      → After
          (Same e)
          (continue (λ (out : Result A). modify (leave_base base e) >> of out) (caught x))
  unfolding ◌>>=◌ modify of leave_base enter_base
  left-Same base e none h = tt
  left-Same base e (some (r, e')) h = record {
    more = h.more;
    roots = h.roots;
    env_roots = h.env_roots;
    control = h.control;
    evals = h.evals;
    bases = take_top e.base_stack e'.base_stack e.base h.bases;
    base = refl;
  }

  pub Balanced-in_base : (base : Obj) (m : M A) → Balanced m → Balanced (in_base base m)
  unfolding in_base ◌>>=◌ gets attempt modify
  Balanced-in_base base m b = record {
    at = λ e. elim (Bool-cases (base == e.base)) [
      | inl same ↦ rw same (b.at e)
      | inr other ↦ rw other (left-Same base e (m (enter_base base e)) (b.at (enter_base base e)))
    ];
  }
