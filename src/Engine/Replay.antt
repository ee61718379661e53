-- ===== src/Engine/Replay.antt =====
-- src/prims/callcc.rs: what a body record leaves to do, next to the loop that wrote it.
use x_engine_rust.Prelude.{
  ℕ, zero, suc, ◌≡◌, refl, ap, ◌∙◌, false, some, List, [], ◌∷◌, arith, if◌then◌else◌,
}
use x_engine_rust.Obj.{Obj, EnvId, nil, is_nil}
use x_engine_rust.Objects.{Objects, is}
use x_engine_rust.Value.{is_cell, list}
use x_engine_rust.Engine.{Engine, pure, answered, walks, continue, ◌>>=◌, Door}
use x_engine_rust.Engine.Apply.{spine_end, seq_steps, eval_body}
use x_engine_rust.Engine.Escape.{resume_body}

-- A proper list without items is nil.
list-nil :
    (fuel : ℕ) (s : Objects) (at : Obj)
    → list fuel s at ≡ some []
    → spine_end fuel s at ≡ some nil
    → at ≡ nil
unfolding list spine_end
list-nil zero s at h p = ground arith
list-nil (suc fuel) s at h p = ground arith

list-cons :
    (fuel : ℕ) (s : Objects) (at : Obj) (f : Obj) (forms : List Obj)
    → list fuel s at ≡ some (f ∷ forms)
    → is_nil at ≡ false
unfolding list is_cell is
list-cons zero s at f forms h = ground arith
list-cons (suc fuel) s at f forms h = ground arith

module _ (d : Door) where
  -- The loop has a form left: the value of the last one is no longer needed.
  eval_body-lem :
      (node : Obj) (env : EnvId) (forms : List Obj) (e : Engine)
      → list d.fuel e.objects node ≡ some forms
      → eval_body d node env e ≡ seq_steps d node env nil forms e
  unfolding eval_body walks ◌>>=◌
  eval_body-lem node env forms e h =
      ap (λ o. continue (λ forms. seq_steps d node env nil forms) (answered e o)) h

  -- After a form of a body, with the record of that form in hand: the loop does with the forms that
  -- are left what the resumption of the record does, when the rest of the body is the proper list
  -- of these forms.
  pub resume_body-seq_steps :
      (next : Obj) (env : EnvId) (v : Obj) (forms : List Obj) (e : Engine)
      → list d.fuel e.objects next ≡ some forms
      → spine_end d.fuel e.objects next ≡ some nil
      → resume_body d next env v e ≡ seq_steps d next env v forms e
  resume_body-seq_steps next env v [] e h p =
      unfold resume_body seq_steps pure in rw (list-nil d.fuel e.objects next h p) refl
  resume_body-seq_steps next env v (f ∷ forms) e h p =
      unfold resume_body seq_steps in
      ap (λ b. (if b then pure v else eval_body d next env) e)
        (list-cons d.fuel e.objects next f forms h)
      ∙ eval_body-lem next env (f ∷ forms) e h
