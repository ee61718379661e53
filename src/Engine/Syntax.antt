-- ===== src/Engine/Syntax.antt =====
-- src/syntax/ and the value of a condition in src/diag.rs: the operatives that bind, abstract,
-- control and quote.
use x_engine_rust.Prelude.{ℕ, true, false, Option, none, some, List, [], ◌∷◌, ◌++◌, if◌then◌else◌}
use x_engine_rust.Obj.{Obj, EnvId, nil, is_nil}
use x_engine_rust.Objects.{Objects, first, rest}
use x_engine_rust.Objects.Kinds.{codes}
use x_engine_rust.Value.{is_cell, list, truthy}
use x_engine_rust.Value.Text.{bytes_of, error_atom_set}
use x_engine_rust.Value.Make.{closure, operative, str_from_bytes}
use x_engine_rust.Base.{get, cell_int, set_cell_int}
use x_engine_rust.Env.{bind}
use x_engine_rust.Env.Frames.{push_frame}
use x_engine_rust.Pending.{nth, handler_push, handler_pop}
use x_engine_rust.Engine.{
  Text, Cond, raised, engine_msg, unbound, cannot_include, not_an_environment, no_program,
  alloc_exceeded, bind_rec, Engine, M, pure, raise, gets, reads, walks, makes, frames, attempt,
  writes, modify, updates, binds, ◌>>=◌, ◌>>◌, on_result, recorded, Host, Door, PrimFn,
}
use x_engine_rust.Engine.Apply.{eval_body, eval_body_tail}
use x_engine_rust.Engine.Escape.{define, assign, is_escaping}

-- `%seq` and `atomic`.
unfoldable pub seq : PrimFn
unfolding eval_body_tail
seq h d callee args env = eval_body_tail d args env

unfoldable pub def : PrimFn
unfolding reads nth recorded define ◌>>=◌
def h d callee args env = do
  name ← reads (λ s. nth s args 0)
  form ← reads (λ s. nth s args 1)
  v ← recorded (bind_rec name env false) (d.eval form env)
  define d.fuel name env v

unfoldable pub set_bang : PrimFn
unfolding reads nth recorded assign ◌>>=◌
set_bang h d callee args env = do
  name ← reads (λ s. nth s args 0)
  form ← reads (λ s. nth s args 1)
  v ← recorded (bind_rec name env true) (d.eval form env)
  assign d.fuel name env v

unfoldable pub func : PrimFn
unfolding reads nth rest makes closure ◌>>=◌
func h d callee args env = do
  params ← reads (λ s. nth s args 0)
  body ← reads (λ s. rest s args)
  makes (λ s. closure d.fuel s params body env)

unfoldable pub operative_prim : PrimFn
unfolding reads nth rest makes operative ◌>>=◌
operative_prim h d callee args env = do
  params ← reads (λ s. nth s args 0)
  envname ← reads (λ s. nth s args 1)
  body ← reads (λ s. rest s (rest s args))
  makes (λ s. operative d.fuel s params envname body env)

unfoldable pub error_prim : PrimFn
unfolding reads nth raise ◌>>=◌
error_prim h d callee args env = do
  form ← reads (λ s. nth s args 0)
  v ← d.eval form env
  raise (raised v)

unfoldable pub lit : PrimFn
unfolding reads nth
lit h d callee args env = reads (λ s. nth s args 0)

-- An arm of `match`: its body in tail position when its test is true, else what the later arms do.
unfoldable pub match_arm : Door → EnvId → Obj → M Obj → M Obj
unfolding reads is_cell first rest truthy eval_body_tail ◌>>=◌
match_arm d env arm later = do
  formed ← reads (λ s. is_cell s arm)
  test ← reads (λ s. first s arm)
  if formed
      then (do
        v ← d.eval test env
        wins ← reads (λ s. truthy s v)
        body ← reads (λ s. rest s arm)
        if wins then eval_body_tail d body env else later)
      else later

unfoldable pub match_arms : Door → EnvId → List Obj → M Obj
unfolding match_arm pure
match_arms d env [] = pure nil
match_arms d env (arm ∷ arms) = match_arm d env arm (match_arms d env arms)

unfoldable pub match_prim : PrimFn
unfolding walks list match_arms ◌>>=◌
match_prim h d callee args env = do arms ← walks (λ s. list d.fuel s args); match_arms d env arms

-- The text of a condition that the engine raised.
unfoldable pub message : Host → Objects → Cond → Option Text
unfolding bytes_of
message h s (raised v) = none
message h s (engine_msg text) = some text
message h s (unbound name) = elim (bytes_of s name) [
  | none ↦ none
  | some bytes ↦ some (codes "Unbound SYMBOL '" ++ (h.lossy bytes ++ codes "'"))
]
message h s (cannot_include path) = some (codes "cannot include " ++ path)
message h s (not_an_environment o) = some (codes "tail-eval: not an environment")
message h s no_program = some (codes "cannot read program from stdin")
message h s alloc_exceeded = some (codes "allocation limit exceeded")

abbrev pub error_str : ℕ
error_str = 2

-- A message in the error atom of the base, or in a string where there is none.
unfoldable pub deliver : ℕ → Objects → Text → Option (Obj × Objects)
unfolding get str_from_bytes error_atom_set
deliver fuel s text =
    let atom = if is_nil s.base then nil else get s s.base error_str in
    if is_nil atom then str_from_bytes fuel s text else some (atom, error_atom_set s atom text)

-- The value that `guard` binds: what was raised, or the message.
unfoldable pub cond_value : Host → ℕ → Cond → M Obj
unfolding walks message makes deliver ◌>>=◌
cond_value h fuel (raised v) = pure v
cond_value h fuel c = do text ← walks (λ s. message h s c); makes (λ s. deliver fuel s text)

abbrev pub err_line : ℕ
err_line = 3

abbrev pub err_file : ℕ
err_file = 4

abbrev pub line_slot : ℕ
line_slot = 13

-- The place of the failure, kept before the handler moves the counters.
unfoldable pub freeze : Engine → Engine
unfolding cell_int set_cell_int
freeze e =
    let s1 = set_cell_int e.objects e.base err_line (cell_int e.objects e.base line_slot) in
    record e { objects = set_cell_int s1 e.base err_file e.live_file }

-- The name of a handler is bound to the value of the condition.
unfoldable pub bind_cond : Host → ℕ → EnvId → Obj → Cond → M (Unit {0})
unfolding cond_value binds bind ◌>>=◌
bind_cond h fuel frame name c =
    if is_nil name
    then pure tt
    else (do v ← cond_value h fuel c; binds (λ envs s. bind fuel envs s frame name v))

-- The handler of a guard, in a frame of its own and in tail position.
unfoldable pub run_handler : Host → Door → Obj → EnvId → Cond → M Obj
unfolding modify freeze reads is_cell first rest frames push_frame bind_cond eval_body_tail ◌>>=◌
run_handler h d spec env c = do
  modify freeze
  name ← reads (λ s. if is_cell s spec then first s spec else nil)
  handler ← reads (λ s. if is_cell s spec then rest s spec else nil)
  frame ← frames (λ envs s. push_frame d.fuel envs s env)
  bind_cond h d.fuel frame name c
  eval_body_tail d handler frame

-- A failure of the body goes on while it escapes, else it has the handler.
unfoldable pub handle_cond : Host → Door → Obj → EnvId → Cond → M Obj
unfolding gets raise run_handler ◌>>=◌
handle_cond h d spec env c = do
  escapes ← gets is_escaping
  if escapes then raise c else run_handler h d spec env c

unfoldable pub guard : PrimFn
unfolding reads nth rest updates handler_push attempt eval_body writes handler_pop on_result
    handle_cond ◌>>=◌
guard h d callee args env = do
  spec ← reads (λ s. nth s args 0)
  body ← reads (λ s. rest s args)
  updates (λ s. handler_push s env)
  out ← attempt (eval_body d body env)
  writes handler_pop
  on_result out pure (handle_cond h d spec env)
