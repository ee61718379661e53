-- ===== src/Engine/Escape.antt =====
-- src/prims/callcc.rs: continuations that escape, the snapshot that a capture takes of the control
-- records, and its replay.
use x_engine_rust.Prelude.{
  ℕ, ◌+◌, ◌-◌, Bool, true, false, not, ◌&&◌, Option, none, some, List, [], ◌∷◌, ◌++◌, reverse, ◌==◌,
  if◌then◌else◌, length, get_or,
}
use x_engine_rust.Obj.{Obj, EnvId, nil, is_nil}
use x_engine_rust.Objects.Kinds.{codes}
use x_engine_rust.Value.{list, cont_id}
use x_engine_rust.Value.Make.{cont}
use x_engine_rust.Env.{map_get, map_insert, bind, set_existing}
use x_engine_rust.Pending.{nothing_pending}
use x_engine_rust.Engine.{
  Cond, raised, engine_msg, unbound, ControlRec, body_rec, args_rec, bind_rec, pass_rec, depth_of,
  ContSnapshot, Engine, M, pure, raise, gets, reads, walks, makes, attempt, modify, binds, ◌>>=◌,
  ◌>>◌, on_option, on_result, root_push, rooted, Door, PrimFn,
}
use x_engine_rust.Engine.Apply.{pad, root_env, call_with_values, eval_body, eargs_for}

-- Whether the depths are 1, 2, … from `i` on.
unfoldable pub depths_from : List ControlRec → ℕ → Bool
unfolding depth_of
depths_from [] i = true
depths_from (r ∷ recs) i = depth_of r == i && depths_from recs (i + 1)

unfoldable pub covers_every_frame : List ControlRec → ℕ → Bool
unfolding depths_from
covers_every_frame recs depth = not (depth == 0) && (length recs == depth - 1) && depths_from recs 1

unfoldable pub invoke_cont : Obj → Obj → M Obj
unfolding reads cont_id modify raise ◌>>=◌
invoke_cont k v = do
  id ← reads (λ s. cont_id s k)
  modify (λ (e : Engine). record e { escaping = some (id, v) })
  raise (raised v)

-- The snapshot of the control records for a continuation.
unfoldable pub capture : ℕ → Obj → Engine → Engine
unfolding covers_every_frame
capture id k e =
    let snap : ContSnapshot = record {
      k = k;
      recs = e.control;
      resumable = covers_every_frame e.control e.active_evals;
    } in
    record e { cont_snapshots = map_insert e.cont_snapshots id snap }

abbrev pub is_escaping : Engine → Bool
is_escaping e = elim e.escaping [ none ↦ false | some x ↦ true ]

-- The value of the escape in flight, if it is that of the continuation `id`.
abbrev pub escape_of : ℕ → Engine → Option Obj
escape_of id e = elim e.escaping [
  | none ↦ none
  | some (eid, v) ↦ if eid == id then some v else none
]

-- Where an escape of the continuation `id` ends; every other failure goes on.
unfoldable pub catch_escape : ℕ → Cond → M Obj
unfolding gets modify raise on_option ◌>>=◌
catch_escape id c = do
  mine ← gets (escape_of id)
  on_option mine (raise c) (λ v. modify (λ (e : Engine). record e { escaping = none }) >> pure v)

-- The variable of a `def` or of a `set!` gets its value.
unfoldable pub define : ℕ → Obj → EnvId → Obj → M Obj
unfolding reads nothing_pending root_env binds bind ◌>>=◌
define fuel name env v = do
  top ← reads nothing_pending
  root ← root_env
  binds (λ envs s. bind fuel envs s (if top then root else env) name v)
  pure name

unfoldable pub assign : ℕ → Obj → EnvId → Obj → M Obj
unfolding gets makes set_existing raise ◌>>=◌
assign fuel name env v = do
  envs ← gets (λ (e : Engine). e.envs)
  found ← makes (λ s. set_existing fuel fuel envs s env name v)
  if found then pure v else raise (unbound name)

module _ (d : Door) where
  unfoldable pub with_escape : Obj → EnvId → M Obj
  unfolding gets modify makes cont capture attempt call_with_values on_result catch_escape ◌>>=◌
  with_escape f env = do
    id ← gets (λ (e : Engine). e.next_cont)
    modify (λ (e : Engine). record e { next_cont = e.next_cont + 1 })
    k ← makes (λ s. cont d.fuel s id)
    modify (capture id k)
    r ← attempt (call_with_values d f (k ∷ []) env)
    on_result r pure (catch_escape id)

  unfoldable pub resume_bind : Obj → EnvId → Bool → Obj → M Obj
  unfolding define assign
  resume_bind name env set val =
      if set then assign d.fuel name env val else define d.fuel name env val

  unfoldable pub resume_body : Obj → EnvId → Obj → M Obj
  unfolding eval_body
  resume_body rest env val = if is_nil rest then pure val else eval_body d rest env

  -- The forms that are left of an argument list.
  unfoldable pub more_args : EnvId → List Obj → List Obj → M (List Obj)
  unfolding root_push ◌>>=◌
  more_args env vals [] = pure vals
  more_args env vals (f ∷ forms) = do
    v ← d.eval f env
    root_push v
    more_args env (vals ++ v ∷ []) forms

  unfoldable pub resume_args : Obj → List Obj → Obj → EnvId → ℕ → Obj → M Obj
  unfolding rooted walks list more_args call_with_values ◌>>=◌
  resume_args callee vals rest env n val = rooted (vals ++ val ∷ []) do
    forms ← walks (λ s. list d.fuel s rest)
    all ← more_args env (vals ++ val ∷ []) forms
    call_with_values d callee (pad all n) env

  unfoldable pub resume_rec : ControlRec → Obj → M Obj
  unfolding resume_bind resume_body resume_args
  resume_rec (pass_rec depth) val = pure val
  resume_rec (bind_rec name env set depth) val = resume_bind name env set val
  resume_rec (body_rec rest env depth) val = resume_body rest env val
  resume_rec (args_rec callee vals rest env n depth) val = resume_args callee vals rest env n val

  unfoldable pub resume : ControlRec → Obj → M Obj
  unfolding rooted resume_rec
  resume r val = rooted (val ∷ []) (resume_rec r val)

  -- The records from the inner one out.
  unfoldable pub replay_steps : List ControlRec → Obj → M Obj
  unfolding resume ◌>>=◌
  replay_steps [] val = pure val
  replay_steps (r ∷ recs) val = resume r val >>= replay_steps recs

  unfoldable pub replay : List ControlRec → Obj → M Obj
  unfolding replay_steps
  replay recs v = replay_steps (reverse recs) v

  abbrev pub resumable_recs : Option ContSnapshot → Option (List ControlRec)
  resumable_recs none = none
  resumable_recs (some snap) = if snap.resumable then some snap.recs else none

  unfoldable pub replay_or_refuse : Option (List ControlRec) → Obj → M Obj
  unfolding replay raise
  replay_or_refuse none v = raise (engine_msg (codes "continuation: extent is not resumable"))
  replay_or_refuse (some recs) v = replay recs v

  -- An escape that reached the top is replayed; another failure stands.
  unfoldable pub resume_escape : Option (ℕ × Obj) → Cond → M (Option Obj)
  unfolding modify gets replay_or_refuse ◌>>=◌
  resume_escape none c = pure none
  resume_escape (some (id, v)) c = do
    modify (λ (e : Engine). record e { escaping = none })
    snap ← gets (λ (e : Engine). map_get e.cont_snapshots id)
    out ← replay_or_refuse (resumable_recs snap) v
    pure (some out)

unfoldable pub call_cc : PrimFn
unfolding eargs_for root_env with_escape ◌>>=◌
call_cc h d callee args env = do
  vals ← eargs_for d callee args env 1
  root ← root_env
  with_escape d (get_or vals 0 nil) root

unfoldable pub cc_invoke : PrimFn
unfolding eargs_for invoke_cont ◌>>=◌
cc_invoke h d callee args env = do
  vals ← eargs_for d callee args env 2
  invoke_cont (get_or vals 0 nil) (get_or vals 1 nil)
