-- ===== src/Engine/Balance/Steps.antt =====
-- src/syntax/ and src/prims/: each instruction of the tables is balanced.
use x_engine_rust.Prelude.{ℕ, Option, none, some}
use x_engine_rust.Prelude.Int.{ℤ}
use x_engine_rust.Obj.{Obj, EnvId}
use x_engine_rust.Engine.{Engine}
use x_engine_rust.Engine.Escape.{call_cc, cc_invoke}
use x_engine_rust.Engine.Syntax.{
  seq, def, set_bang, func, operative_prim, error_prim, lit, match_prim, guard,
}
use x_engine_rust.Engine.Doors.{
  looked, lookup_in, sym_eval, list_eval, callable_call, procedure_entry, operative_entry,
  wrap_entry, cont_entry, list_index, list_call, eval_in, eval_here, apply_prim, base_prim,
  wrap_row, unwrap_row, tail_eval,
}
use x_engine_rust.Engine.Balance.{
  After, Same, Balanced, Same-refl, Balanced-bind, Balanced-on_option, Balanced-pure,
  Balanced-reads,
}
use x_engine_rust.Engine.Balance.Doors.{
  steps, call_with_values_tail-Balanced, eval_args-Balanced, eargs_for-Balanced, eargs-Balanced,
  eval_body_tail-Balanced, eval_body-Balanced, saved-Balanced, apply_closure-Balanced,
  apply_op-Balanced, apply_wrapper-Balanced,
}
use x_engine_rust.Engine.Balance.Rows.{
  IsStep, invoke_cont-Balanced, define-Balanced, assign-Balanced, eval-Balanced, combine-Balanced,
  with_escape-Balanced, match_arms-Balanced, handle_cond-Balanced,
}

pub def-IsStep : IsStep def
unfolding def
def-IsStep = record {
  at = λ h d b callee args env. search (steps, eval-Balanced h d b, define-Balanced) depth 8;
}

pub set_bang-IsStep : IsStep set_bang
unfolding set_bang
set_bang-IsStep = record {
  at = λ h d b callee args env. search (steps, eval-Balanced h d b, assign-Balanced) depth 8;
}

pub func-IsStep : IsStep func
unfolding func
func-IsStep = record { at = λ h d b callee args env. search steps }

pub operative_prim-IsStep : IsStep operative_prim
unfolding operative_prim
operative_prim-IsStep = record { at = λ h d b callee args env. search steps depth 8 }

pub seq-IsStep : IsStep seq
unfolding seq
seq-IsStep = record { at = λ h d b callee args env. eval_body_tail-Balanced d b args env }

pub error_prim-IsStep : IsStep error_prim
unfolding error_prim
error_prim-IsStep = record { at = λ h d b callee args env. search (steps, eval-Balanced h d b) }

pub guard-IsStep : IsStep guard
unfolding guard
guard-IsStep = record {
  at = λ h d b callee args env.
      search (steps, eval_body-Balanced d b, handle_cond-Balanced h d b) depth 12;
}

pub match_prim-IsStep : IsStep match_prim
unfolding match_prim
match_prim-IsStep = record {
  at = λ h d b callee args env. search (steps, match_arms-Balanced h d b);
}

pub lit-IsStep : IsStep lit
unfolding lit
lit-IsStep = record { at = λ h d b callee args env. search steps }

pub eval_in-IsStep : IsStep eval_in
unfolding eval_in
eval_in-IsStep = record {
  at = λ h d b callee args env. search (steps, eval-Balanced h d b, saved-Balanced d b) depth 15;
}

pub eval_here-IsStep : IsStep eval_here
unfolding eval_here
eval_here-IsStep = record { at = λ h d b callee args env. search (steps, eval-Balanced h d b) }

pub apply_prim-IsStep : IsStep apply_prim
unfolding apply_prim
apply_prim-IsStep = record {
  at = λ h d b callee args env.
      search
        (steps, eval-Balanced h d b, eval_args-Balanced d b, call_with_values_tail-Balanced d b)
        depth 12;
}

pub wrap_row-IsStep : IsStep wrap_row
unfolding wrap_row
wrap_row-IsStep = record { at = λ h d b callee args env. search (steps, eargs_for-Balanced d b) }

pub unwrap_row-IsStep : IsStep unwrap_row
unfolding unwrap_row
unwrap_row-IsStep = record { at = λ h d b callee args env. search (steps, eargs_for-Balanced d b) }

pub tail_eval-IsStep : IsStep tail_eval
unfolding tail_eval
tail_eval-IsStep = record {
  at = λ h d b callee args env. search (steps, eargs_for-Balanced d b) depth 10;
}

pub base_prim-IsStep : IsStep base_prim
unfolding base_prim
base_prim-IsStep = record { at = λ h d b callee args env. search (steps, eargs_for-Balanced d b) }

looked-Same : (e : Engine) (x : Option (Option Obj)) → After (Same e) (looked e x)
looked-Same e none = tt
looked-Same e (some v) = Same-refl e

lookup_in-Balanced : (fuel : ℕ) (env : EnvId) (name : Obj) → Balanced (lookup_in fuel env name)
unfolding lookup_in
lookup_in-Balanced fuel env name = record { at = λ e. looked-Same e _ }

pub sym_eval-IsStep : IsStep sym_eval
unfolding sym_eval
sym_eval-IsStep = record { at = λ h d b callee args env. search (steps, lookup_in-Balanced) }

pub list_eval-IsStep : IsStep list_eval
unfolding list_eval
list_eval-IsStep = record {
  at = λ h d b callee args env. search (steps, eval-Balanced h d b, combine-Balanced h d b) depth 9;
}

pub callable_call-IsStep : IsStep callable_call
unfolding callable_call
callable_call-IsStep = record {
  at = λ h d b callee args env. Balanced-bind _ _ (Balanced-reads _) (λ idx.
      Balanced-on_option (d.entry idx) _ _ (Balanced-pure callee)
        (λ f found. b.entry idx f found callee args env));
}

pub procedure_entry-IsStep : IsStep procedure_entry
unfolding procedure_entry
procedure_entry-IsStep = record {
  at = λ h d b callee args env. apply_closure-Balanced d b callee args env;
}

pub operative_entry-IsStep : IsStep operative_entry
unfolding operative_entry
operative_entry-IsStep = record {
  at = λ h d b callee args env. apply_op-Balanced d b callee args env;
}

pub wrap_entry-IsStep : IsStep wrap_entry
unfolding wrap_entry
wrap_entry-IsStep = record {
  at = λ h d b callee args env. apply_wrapper-Balanced d b callee args env;
}

pub cont_entry-IsStep : IsStep cont_entry
unfolding cont_entry
cont_entry-IsStep = record {
  at = λ h d b callee args env. search (steps, eargs-Balanced d b, invoke_cont-Balanced);
}

list_index-Balanced : (fuel : ℕ) (at : Obj) (n : ℤ) → Balanced (list_index fuel at n)
unfolding list_index
list_index-Balanced fuel at n = search steps

pub list_call-IsStep : IsStep list_call
unfolding list_call
list_call-IsStep = record {
  at = λ h d b callee args env. search (steps, eargs-Balanced d b, list_index-Balanced) depth 12;
}

pub call_cc-IsStep : IsStep call_cc
unfolding call_cc
call_cc-IsStep = record {
  at = λ h d b callee args env. search (steps, eargs_for-Balanced d b, with_escape-Balanced h d b);
}

pub cc_invoke-IsStep : IsStep cc_invoke
unfolding cc_invoke
cc_invoke-IsStep = record {
  at = λ h d b callee args env. search (steps, eargs_for-Balanced d b, invoke_cont-Balanced);
}
