-- ===== src/Engine/Session.antt =====
-- src/session.rs: the sources of the input rows, the evaluation of a form of the top level, and the
-- loop over the forms of a source. The reading of a form is an argument of the loop.
use x_engine_rust.Prelude.{
  ℕ, zero, suc, ◌-◌, ◌||◌, Option, none, some, List, [], ◌∷◌, ◌++◌, ◌==◌, if◌then◌else◌, length,
  get_or,
}
use x_engine_rust.Prelude.Int.{pos}
use x_engine_rust.Obj.{Obj, EnvId, Word, nil, is_nil}
use x_engine_rust.Objects.{Objects, set_data, first, rest}
use x_engine_rust.Objects.Kinds.{codes}
use x_engine_rust.Value.{spair}
use x_engine_rust.Value.Buffer.{
  buf_ro, buf_cursor, set_buf_cursor, buf_write, set_buf_write, buf_text, str_bytes, set_buf_retain,
  buf_line_shift,
}
use x_engine_rust.Value.Make.{sym, pair, int, str_from_bytes, buf}
use x_engine_rust.Base.{get, set_slot}
use x_engine_rust.Base.Build.{raw_cell}
use x_engine_rust.Env.{bind}
use x_engine_rust.Buffer.{compact_loop}
use x_engine_rust.Reader.{filein}
use x_engine_rust.Engine.{
  Text, Result, ok, err, Engine, M, pure, raise, of, out_of_fuel, gets, reads, makes, attempt,
  writes, modify, binds, ◌>>=◌, ◌>>◌, take, root_push, root_truncate, root_mark, on_result, Door,
}
use x_engine_rust.Engine.Apply.{root_env}
use x_engine_rust.Engine.Gc.{buffer_slot}
use x_engine_rust.Engine.Syntax.{line_slot}
use x_engine_rust.Engine.Escape.{resume_escape}

-- An object at the head of the list in a slot of the base.
unfoldable pub slot_cons : ℕ → Obj → M (Unit {0})
unfolding gets get makes spair writes set_slot ◌>>=◌
slot_cons slot o = do
  base ← gets (λ (e : Engine). e.base)
  cell ← makes (λ s. spair s o (get s base slot))
  writes (λ s. set_slot s base slot cell)

-- An object alone on the list in a slot of the base.
unfoldable pub slot_single : ℕ → Obj → M (Unit {0})
unfolding gets makes spair writes set_slot ◌>>=◌
slot_single slot o = do
  base ← gets (λ (e : Engine). e.base)
  cell ← makes (λ s. spair s o nil)
  writes (λ s. set_slot s base slot cell)

unfoldable pub slot_rest : ℕ → M (Unit {0})
unfolding gets get rest writes set_slot ◌>>=◌
slot_rest slot = do
  base ← gets (λ (e : Engine). e.base)
  writes (λ s. set_slot s base slot (rest s (get s base slot)))

unfoldable pub set_input : ℕ → Text → M (Unit {0})
unfolding makes str_from_bytes buf int slot_single ◌>>=◌
set_input fuel src = do
  text ← makes (λ s. str_from_bytes fuel s src)
  b ← makes (λ s. buf fuel s text 0)
  slot_single buffer_slot b
  fd ← makes (λ s. int fuel s (pos 0))
  slot_single filein fd

-- The row of the lines is replaced, and the cell that it had waits on `line_stack`.
unfoldable pub line_push : ℕ → M (Unit {0})
unfolding makes raw_cell gets get writes set_slot modify ◌>>=◌
line_push fuel = do
  base ← gets (λ (e : Engine). e.base)
  line ← makes (λ s. raw_cell fuel s 1)
  old ← reads (λ s. get s base line_slot)
  writes (λ s. set_slot s base line_slot line)
  modify (λ (e : Engine). record e { line_stack = e.line_stack ++ old ∷ [] })

abbrev restored_line : Engine → Objects
restored_line e = elim e.line_stack [
  | [] ↦ e.objects
  | o ∷ more ↦
      set_slot e.objects e.base line_slot (get_or e.line_stack (length e.line_stack - 1) nil)
]

unfoldable pub line_pop : Engine → Engine
unfolding set_slot
line_pop e = record e {
  objects = restored_line e;
  line_stack = take e.line_stack (length e.line_stack - 1);
}

unfoldable pub input_push_file : ℕ → Text → Word → Word → M (Unit {0})
unfolding makes str_from_bytes buf writes set_data slot_cons line_push ◌>>=◌
input_push_file fuel src fd file_id = do
  text ← makes (λ s. str_from_bytes fuel s src)
  b ← makes (λ s. buf fuel s text 0)
  writes (λ s. set_data s b 6 file_id)
  slot_cons buffer_slot b
  fdo ← makes (λ s. int fuel s (pos fd))
  slot_cons filein fdo
  line_push fuel

unfoldable pub input_pop : M (Unit {0})
unfolding slot_rest modify line_pop ◌>>=◌
input_pop = do slot_rest buffer_slot; slot_rest filein; modify line_pop

unfoldable pub current_buffer : Engine → Obj
unfolding get first
current_buffer e =
    let row = get e.objects e.base buffer_slot in if is_nil row then nil else first e.objects row

-- The bytes that are not read move to the front of their region.
unfoldable pub compacted : Objects → Obj → Objects
unfolding buf_ro buf_cursor buf_write compact_loop str_bytes buf_text set_buf_retain set_buf_cursor
    set_buf_write buf_line_shift
compacted s b =
    let c = buf_cursor s b in
    let w = buf_write s b in
    let s1 = compact_loop s (str_bytes s (buf_text s b)) c (w - c) 0 in
    let s2 = set_buf_write (set_buf_cursor (set_buf_retain s1 b 0) b 0) b (w - c) in
    if is_nil b || buf_ro s b || c == 0 then s else buf_line_shift s2 b c

unfoldable pub compact_input : M (Unit {0})
unfolding gets current_buffer writes compacted ◌>>=◌
compact_input = do b ← gets current_buffer; writes (λ s. compacted s b)

-- The strings of the arguments, as objects from the last to the first, on a list.
unfoldable pub arg_list : ℕ → List Text → M Obj
unfolding makes str_from_bytes pair ◌>>=◌
arg_list fuel [] = pure nil
arg_list fuel (a ∷ argv) = do
  more ← arg_list fuel argv
  o ← makes (λ s. str_from_bytes fuel s a)
  makes (λ s. pair fuel s o more)

unfoldable pub bind_args : ℕ → List Text → M (Unit {0})
unfolding arg_list makes sym root_env binds bind ◌>>=◌
bind_args fuel argv = do
  alist ← arg_list fuel argv
  name ← makes (λ s. sym fuel s (codes "args"))
  env ← root_env
  binds (λ envs s. bind fuel envs s env name alist)

module _ (d : Door) where
  -- The loop that replays an escape that reached the top; each replay may leave another.
  unfoldable pub settle_escapes : ℕ → Result Obj → M Obj
  unfolding gets attempt resume_escape on_result ◌>>=◌
  settle_escapes zero out = out_of_fuel
  settle_escapes (suc rounds) (ok v) = pure v
  settle_escapes (suc rounds) (err c) = do
    escape ← gets (λ (e : Engine). e.escaping)
    r ← attempt (resume_escape d escape c)
    elim r [
      | ok none ↦ raise c
      | ok (some v) ↦ settle_escapes rounds (ok v)
      | err c1 ↦ settle_escapes rounds (err c1)
    ]

  -- At the top level nothing but the result stays rooted.
  unfoldable pub drop_roots : M (Unit {0})
  unfolding gets root_truncate ◌>>=◌
  drop_roots = do
    top ← gets (λ (e : Engine). e.active_evals == 0)
    if top then root_truncate 0 else pure tt

  unfoldable pub eval_top : Obj → M Obj
  unfolding root_env attempt settle_escapes drop_roots on_result root_push ◌>>=◌
  eval_top form = do
    env ← root_env
    r ← attempt (d.eval form env)
    out ← attempt (settle_escapes d.fuel r)
    drop_roots
    on_result out (λ v. root_push v >> pure v) raise

  -- The loop over the forms of a source, with the value of the last.
  unfoldable pub source_loop : ℕ → M (Option Obj) → ℕ → EnvId → Obj → M Obj
  unfolding attempt settle_escapes root_truncate root_push ◌>>=◌
  source_loop zero read_form mark env last = out_of_fuel
  source_loop (suc rounds) read_form mark env last = do
    got ← read_form
    elim got [
      | none ↦ pure last
      | some form ↦ do
        r ← attempt (d.eval form env)
        out ← attempt (settle_escapes d.fuel r)
        root_truncate mark
        v ← of out
        root_push v
        source_loop rounds read_form mark env v
    ]

  unfoldable pub eval_source_file : M (Option Obj) → Text → EnvId → Word → Word → M Obj
  unfolding input_push_file drop_roots gets attempt source_loop input_pop ◌>>=◌
  eval_source_file read_form src env fd file_id = do
    input_push_file d.fuel src fd file_id
    drop_roots
    mark ← gets root_mark
    out ← attempt (source_loop d.fuel read_form mark env nil)
    input_pop
    of out
