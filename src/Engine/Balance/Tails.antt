-- ===== src/Engine/Balance/Tails.antt =====
-- src/eval.rs: a tail call, which replaces the slots of the loop.
use mathlib.Core.Path.{subst}
use x_engine_rust.Prelude.{ℕ, ◌≡◌, refl, some, [], ◌∷◌, ◌++◌, length}
use x_engine_rust.Obj.{Obj, EnvId}
use x_engine_rust.Engine.{ok, Engine, modify, ◌>>=◌, root_truncate, env_root_truncate, Host}
use x_engine_rust.Engine.Run.{door, again, round, replace_slots}
use x_engine_rust.Engine.Tables.{instructions}
use x_engine_rust.Engine.Balance.{After, Same}
use x_engine_rust.Engine.Balance.Tables.{instructions-AllSteps}
use x_engine_rust.Engine.Balance.Loop.{
  Slotted, Slotted-Same, LeavesStacks, round-Balanced, slot_written,
}
use x_engine_rust.Engine.Balance.Closed.{door-IsBalanced}

-- A tail call does not grow the stacks of the loop. When a round of it hands on a form, whatever
-- the round left above the two slots, the roots then are those of before the loop and the form, and
-- the environment roots are those of before and its environment; the other stacks are as they were.
-- The machine code that is called leaves the stacks as it found them.
pub replace_slots-round :
    (h : Host)
    → LeavesStacks h
    → (n : ℕ) (form next : Obj) (env next_env : EnvId) (e e' e'' : Engine) → Slotted e e'
    → round instructions h (door instructions h n) form env e'
      ≡ some (ok (again next next_env), e'')
    → (t : Engine) × (replace_slots instructions h
          (door instructions h n)
          (length e.roots)
          (length e.env_roots)
          next
          next_env
          e''
        ≡ some (ok tt, t))
      × (t.roots ≡ e.roots ++ next ∷ [])
      × (t.env_roots ≡ e.env_roots ++ next_env ∷ [])
      × (t.control ≡ e.control)
      × (t.active_evals ≡ e.active_evals)
      × (t.base_stack ≡ e.base_stack)
unfolding replace_slots root_truncate env_root_truncate modify ◌>>=◌
replace_slots-round h foreign n form next env next_env e e' e'' s eq =
    let b = door-IsBalanced instructions instructions-AllSteps h foreign n in
    let kept : Same e' e'' = subst (After (Same e')) eq (
      (round-Balanced instructions instructions-AllSteps h (door instructions h n) b form env).at
        e') in
    let held = Slotted-Same s kept in
    (
      _,
      refl,
      slot_written e.roots e''.roots held.more held.form next held.roots,
      slot_written e.env_roots e''.env_roots [] held.env next_env held.env_roots,
      held.control,
      held.evals,
      held.bases,
    )
