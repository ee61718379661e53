-- ===== src/Engine/Balance.antt =====
-- src/collect.rs, src/eval.rs and src/engine.rs: an action leaves the stacks of the evaluator as it
-- found them, whether it answers or fails. Only the roots may have more on top.
use mathlib.Core.List.{append_assoc, append-nil}
pub mod Brackets
pub mod Doors
pub mod Rows
pub mod Steps
pub mod Closed
pub mod Leaves
pub mod Loop
pub mod Tables
pub mod Tails
use x_engine_rust.Prelude.{
  ℕ, zero, suc, ◌+◌, ◌-◌, ◌≡◌, refl, sym, ap, ◌∙◌, Bool, true, false, Option, none, some, List, [],
  ◌∷◌, ◌++◌, arith, if◌then◌else◌, length, length-append,
}
use x_engine_rust.Obj.{Obj, EnvId}
use x_engine_rust.Objects.{Objects}
use x_engine_rust.Env.{Envs}
use x_engine_rust.Engine.{
  Cond, Result, ok, err, ControlRec, Engine, M, pure, raise, of, out_of_fuel, gets, reads, answered,
  walks, stored, makes, framed, frames, caught, attempt, writes, modify, updated, updates, bound,
  binds, continue, ◌>>=◌, on_option, on_result, take, root_push, push_roots, rooted, env_rooted,
  recorded,
}

-- The state after an action, when there is one.
abbrev pub After : {A : Type 0} → (Engine → Type 0) → Option (Result A × Engine) → Type 0
After P none = Unit {0}
After P (some (r, e)) = P e

-- The stacks are as before, with some roots more at most.
pub record Same (e e' : Engine) : Type 0 where
  pub more : List Obj
  pub roots : e'.roots ≡ e.roots ++ more
  pub env_roots : e'.env_roots ≡ e.env_roots
  pub control : e'.control ≡ e.control
  pub evals : e'.active_evals ≡ e.active_evals
  pub bases : e'.base_stack ≡ e.base_stack
  pub base : e'.base ≡ e.base

pub record Balanced {A : Type 0} (m : M A) : Type 0 where
  pub at : (e : Engine) → After (Same e) (m e)

pub Same-refl : (e : Engine) → Same e e
Same-refl e = record {
  more = [];
  roots = sym (append-nil e.roots);
  env_roots = refl;
  control = refl;
  evals = refl;
  bases = refl;
  base = refl;
}

pub Same-trans : {e e' e'' : Engine} → Same e e' → Same e' e'' → Same e e''
Same-trans {e} x y = record {
  more = x.more ++ y.more;
  roots = y.roots ∙ ap (λ z. z ++ y.more) x.roots ∙ append_assoc e.roots x.more y.more;
  env_roots = y.env_roots ∙ x.env_roots;
  control = y.control ∙ x.control;
  evals = y.evals ∙ x.evals;
  bases = y.bases ∙ x.bases;
  base = y.base ∙ x.base;
}

-- A step that changes none of the stacks.
pub record Apart (e e' : Engine) : Type 0 where
  pub roots : e'.roots ≡ e.roots
  pub env_roots : e'.env_roots ≡ e.env_roots
  pub control : e'.control ≡ e.control
  pub evals : e'.active_evals ≡ e.active_evals
  pub bases : e'.base_stack ≡ e.base_stack
  pub base : e'.base ≡ e.base

pub Apart-Same : {e e' : Engine} → Apart e e' → Same e e'
Apart-Same {e} x = record {
  more = [];
  roots = x.roots ∙ sym (append-nil e.roots);
  env_roots = x.env_roots;
  control = x.control;
  evals = x.evals;
  bases = x.bases;
  base = x.base;
}

pub After-trans :
    {A : Type 0} {e e' : Engine} (x : Option (Result A × Engine))
    → Same e e'
    → After (Same e') x
    → After (Same e) x
After-trans none s h = tt
After-trans (some (r, e'')) s h = Same-trans s h

module _ {A : Type 0} where
  pub Balanced-pure : (a : A) → Balanced (pure a)
  unfolding pure
  Balanced-pure a = record { at = λ e. Same-refl e }

  pub Balanced-raise : (c : Cond) → Balanced (raise {A = A} c)
  unfolding raise
  Balanced-raise c = record { at = λ e. Same-refl e }

  pub Balanced-of : (r : Result A) → Balanced (of r)
  unfolding of
  Balanced-of r = record { at = λ e. Same-refl e }

  pub Balanced-out_of_fuel : Balanced (out_of_fuel {A = A})
  unfolding out_of_fuel
  Balanced-out_of_fuel = record { at = λ e. tt }

  pub Balanced-gets : (f : Engine → A) → Balanced (gets f)
  unfolding gets
  Balanced-gets f = record { at = λ e. Same-refl e }

  pub Balanced-reads : (f : Objects → A) → Balanced (reads f)
  unfolding reads
  Balanced-reads f = record { at = λ e. Same-refl e }

  answered-Same : (e : Engine) (x : Option A) → After (Same e) (answered e x)
  answered-Same e none = tt
  answered-Same e (some a) = Same-refl e

  pub Balanced-walks : (f : Objects → Option A) → Balanced (walks f)
  unfolding walks
  Balanced-walks f = record { at = λ e. answered-Same e (f e.objects) }

  stored-Same : (e : Engine) (x : Option (A × Objects)) → After (Same e) (stored e x)
  stored-Same e none = tt
  stored-Same e (some (a, s)) = Apart-Same (record {
    roots = refl;
    env_roots = refl;
    control = refl;
    evals = refl;
    bases = refl;
    base = refl;
  })

  pub Balanced-makes : (f : Objects → Option (A × Objects)) → Balanced (makes f)
  unfolding makes
  Balanced-makes f = record { at = λ e. stored-Same e (f e.objects) }

  framed-Same : (e : Engine) (x : Option (A × Envs × Objects)) → After (Same e) (framed e x)
  framed-Same e none = tt
  framed-Same e (some (a, envs, s)) = Apart-Same (record {
    roots = refl;
    env_roots = refl;
    control = refl;
    evals = refl;
    bases = refl;
    base = refl;
  })

  pub Balanced-frames : (f : Envs → Objects → Option (A × Envs × Objects)) → Balanced (frames f)
  unfolding frames
  Balanced-frames f = record { at = λ e. framed-Same e (f e.envs e.objects) }

  caught-Same :
      (e : Engine) (x : Option (Result A × Engine)) → After (Same e) x → After (Same e) (caught x)
  caught-Same e none h = tt
  caught-Same e (some (r, e')) h = h

  pub Balanced-attempt : (m : M A) → Balanced m → Balanced (attempt m)
  unfolding attempt
  Balanced-attempt m b = record { at = λ e. caught-Same e (m e) (b.at e) }

pub Balanced-writes : (f : Objects → Objects) → Balanced (writes f)
unfolding writes
Balanced-writes f = record {
  at = λ e. Apart-Same (record {
    roots = refl;
    env_roots = refl;
    control = refl;
    evals = refl;
    bases = refl;
    base = refl;
  });
}

pub Balanced-modify : (f : Engine → Engine) → ((e : Engine) → Apart e (f e)) → Balanced (modify f)
unfolding modify
Balanced-modify f h = record { at = λ e. Apart-Same (h e) }

updated-Same : (e : Engine) (x : Option Objects) → After (Same e) (updated e x)
updated-Same e none = tt
updated-Same e (some s) = Apart-Same (record {
  roots = refl;
  env_roots = refl;
  control = refl;
  evals = refl;
  bases = refl;
  base = refl;
})

pub Balanced-updates : (f : Objects → Option Objects) → Balanced (updates f)
unfolding updates
Balanced-updates f = record { at = λ e. updated-Same e (f e.objects) }

bound-Same : (e : Engine) (x : Option (Envs × Objects)) → After (Same e) (bound e x)
bound-Same e none = tt
bound-Same e (some (envs, s)) = Apart-Same (record {
  roots = refl;
  env_roots = refl;
  control = refl;
  evals = refl;
  bases = refl;
  base = refl;
})

pub Balanced-binds : (f : Envs → Objects → Option (Envs × Objects)) → Balanced (binds f)
unfolding binds
Balanced-binds f = record { at = λ e. bound-Same e (f e.envs e.objects) }

pub Balanced-root_push : (o : Obj) → Balanced (root_push o)
unfolding root_push
Balanced-root_push o = record {
  at = λ e. record {
    more = o ∷ [];
    roots = refl;
    env_roots = refl;
    control = refl;
    evals = refl;
    bases = refl;
    base = refl;
  };
}

module _ {A B : Type 0} where
  continue-Same :
      (e : Engine) (f : A → M B) (x : Option (Result A × Engine))
      → After (Same e) x
      → ((a : A) → Balanced (f a))
      → After (Same e) (continue f x)
  continue-Same e f none h bf = tt
  continue-Same e f (some (ok a, e')) h bf = After-trans (f a e') h ((bf a).at e')
  continue-Same e f (some (err c, e')) h bf = h

  pub Balanced-bind :
      (m : M A) (f : A → M B) → Balanced m → ((a : A) → Balanced (f a)) → Balanced (m >>= f)
  unfolding ◌>>=◌
  Balanced-bind m f bm bf = record { at = λ e. continue-Same e f (m e) (bm.at e) bf }

  pub Balanced-on_option :
      (o : Option A) (m : M B) (f : A → M B)
      → Balanced m
      → ((a : A) → o ≡ some a → Balanced (f a))
      → Balanced (on_option o m f)
  unfolding on_option
  Balanced-on_option none m f bm bf = bm
  Balanced-on_option (some a) m f bm bf = bf a refl

  pub Balanced-on_result :
      (r : Result A) (f : A → M B) (g : Cond → M B)
      → ((a : A) → Balanced (f a))
      → ((c : Cond) → Balanced (g c))
      → Balanced (on_result r f g)
  unfolding on_result
  Balanced-on_result (ok a) f g bf bg = bf a
  Balanced-on_result (err c) f g bf bg = bg c

module _ {A : Type 0} where
  pub Balanced-if : (b : Bool) (m n : M A) → Balanced m → Balanced n → Balanced (if b then m else n)
  Balanced-if true m n bm bn = bm
  Balanced-if false m n bm bn = bn

pub take-append : {A : Type 0} (xs ys : List A) → take (xs ++ ys) (length xs) ≡ xs
take-append [] [] = refl
take-append [] (y ∷ ys) = refl
take-append (x ∷ xs) ys = ap (λ z. x ∷ z) (take-append xs ys)
