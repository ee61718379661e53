-- ===== src/Engine/Gc.antt =====
-- src/collect.rs: what the engine holds live, the hooks of a collection, and the whole collection,
-- with the purge of the tables that are keyed by an address. The order of the roots that a hash map
-- holds is that of its list. The check of debug builds is left out.
use x_engine_rust.Prelude.{
  ℕ, Bool, true, false, not, Option, none, some, List, [], ◌∷◌, ◌++◌, reverse, if◌then◌else◌,
}
use x_engine_rust.Obj.{Obj, EnvId, is_nil}
use x_engine_rust.Objects.{Objects}
use x_engine_rust.Symbols.{Symbols, all}
use x_engine_rust.Value.{list}
use x_engine_rust.Base.{get, env_of}
use x_engine_rust.Env.{Envs, Map}
use x_engine_rust.Instructions.Counts.{mark_hooks, free_hooks, mark_roots, interned}
use x_engine_rust.Collect.{is_freed, mark, sweep}
use x_engine_rust.Engine.{
  Result, ControlRec, body_rec, args_rec, bind_rec, pass_rec, ContSnapshot, Engine, M, pure, gets,
  walks, makes, attempt, modify, ◌>>=◌, ◌>>◌, Door,
}
use x_engine_rust.Engine.Apply.{root_env, call_with_values}

abbrev pub buffer_slot : ℕ
buffer_slot = 18

abbrev pub tco_env_slot : ℕ
tco_env_slot = 21

-- `values()` of a `HashMap`.
abbrev pub values : {A : Type 0} → List (ℕ × A) → List A
values [] = []
values ((k, a) ∷ m) = a ∷ values m

abbrev pub both : List (Obj × Obj) → List Obj
both [] = []
both ((a, b) ∷ rest) = a ∷ b ∷ both rest

unfoldable pub table_objects : List Symbols → List Obj
unfolding all
table_objects [] = []
table_objects (t ∷ tables) = all t ++ table_objects tables

abbrev pub rooted_with : Engine → Option (List Obj) → Option (List Obj)
rooted_with e none = none
rooted_with e (some library) = some (
    e.base
    ∷ e.objects.spair_marker
    ∷ e.objects.satom_marker
    ∷ e.objects.int_read
    ∷ (e.objects.kind_handles
        ++ (values e.objects.other_kind_handles
            ++ (e.objects.int_states
                ++ (e.objects.eval_handlers
                    ++ (e.objects.callable_call_handler
                        ∷ e.objects.list_call_handler
                        ∷ (interned e.objects
                            ++ (both e.prim_bindings
                                ++ (table_objects (values e.base_syms)
                                    ++ (e.line_stack
                                        ++ (e.base_stack ++ (e.roots ++ library))))))))))))

-- The last of the roots are those that the library asked for.
unfoldable pub root_set : ℕ → Engine → Option (List Obj)
unfolding interned table_objects list get
root_set fuel e = rooted_with e (list fuel e.objects (get e.objects e.base mark_roots))

unfoldable pub env_root_set : Engine → List EnvId
unfolding env_of get
env_root_set e =
    let tco_env = get e.objects e.base tco_env_slot in
    env_of e.objects e.base ∷ (if is_nil tco_env then e.env_roots else tco_env ∷ e.env_roots)

-- `push_rec`.
unfoldable pub rec_refs : ControlRec → List Obj
rec_refs (body_rec rest env depth) = rest ∷ env ∷ []
rec_refs (args_rec callee vals rest env n depth) = callee ∷ (vals ++ rest ∷ env ∷ [])
rec_refs (bind_rec name env set depth) = name ∷ env ∷ []
rec_refs (pass_rec depth) = []

unfoldable pub recs_refs : List ControlRec → List Obj
unfolding rec_refs
recs_refs [] = []
recs_refs (r ∷ recs) = rec_refs r ++ recs_refs recs

unfoldable pub snapshot_refs : List ContSnapshot → List Obj
unfolding recs_refs
snapshot_refs [] = []
snapshot_refs (snap ∷ snaps) = recs_refs snap.recs ++ snapshot_refs snaps

abbrev pub mark_stack_with : Engine → Option (List Obj) → Option (List Obj)
mark_stack_with e none = none
mark_stack_with e (some objs) =
    some
      (objs ++ (env_root_set e ++ (recs_refs e.control ++ snapshot_refs (values e.cont_snapshots))))

-- All that is pushed for the mark pass, in the order of the pushes.
unfoldable pub mark_stack : ℕ → Engine → Option (List Obj)
unfolding root_set env_root_set recs_refs snapshot_refs
mark_stack fuel e = mark_stack_with e (root_set fuel e)

-- `retain` by the key.
abbrev pub retain_keys : {A : Type 0} → (ℕ → Bool) → Map A → Map A
retain_keys p [] = []
retain_keys p ((k, a) ∷ m) = let kept = retain_keys p m in if p k then (k, a) ∷ kept else kept

abbrev pub retain_snapshots : Objects → Map ContSnapshot → Map ContSnapshot
retain_snapshots s [] = []
retain_snapshots s ((id, snap) ∷ m) =
    let kept = retain_snapshots s m in if is_freed s snap.k then kept else (id, snap) ∷ kept

-- The snapshots of continuations that were freed, the shadow maps of frames and the symbol tables of
-- bases that were.
unfoldable pub purge : Engine → Engine
unfolding is_freed
purge e =
    let s = e.objects in
    let live : ℕ → Bool = λ o. not (is_freed s o) in
    let envs : Envs = record e.envs { index = retain_keys live e.envs.index } in
    record e {
      cont_snapshots = retain_snapshots s e.cont_snapshots;
      envs = envs;
      base_syms = retain_keys live e.base_syms;
    }

module _ (d : Door) where
  -- Each hook is called with nothing, and what it raises is dropped.
  unfoldable pub hook_steps : EnvId → List Obj → M (Unit {0})
  unfolding attempt call_with_values ◌>>=◌
  hook_steps env [] = pure tt
  hook_steps env (hook ∷ hooks) = attempt (call_with_values d hook [] env) >> hook_steps env hooks

  unfoldable pub run_gc_hooks : ℕ → M (Unit {0})
  unfolding gets get walks list root_env hook_steps ◌>>=◌
  run_gc_hooks slot = do
    alist ← gets (λ (e : Engine). get e.objects e.base slot)
    if is_nil alist
        then pure tt
        else (do hooks ← walks (λ s. list d.fuel s alist); env ← root_env; hook_steps env hooks)

  unfoldable pub first_hooks : M (Unit {0})
  unfolding gets modify run_gc_hooks ◌>>=◌
  first_hooks = do
    busy ← gets (λ (e : Engine). e.in_gc)
    if busy
        then pure tt
        else modify (λ (e : Engine). record e { in_gc = true }) >> run_gc_hooks mark_hooks

  abbrev pub marked : Engine → Option (List Obj) → Option Objects
  marked e none = none
  marked e (some stack) = mark d.fuel (reverse stack) e.objects

  abbrev pub remarked : Engine → Option Objects → Option (Result (Unit {0}) × Engine)
  remarked e none = none
  remarked e (some s) = some (Result.ok tt, record e { objects = s })

  unfoldable pub mark_live : M (Unit {0})
  unfolding mark_stack mark
  mark_live e = remarked e (marked e (mark_stack d.fuel e))

  abbrev pub counted : Option (Objects × ℕ) → Option (ℕ × Objects)
  counted none = none
  counted (some (s, freed)) = some (freed, s)

  unfoldable pub collect : M ℕ
  unfolding first_hooks mark_live run_gc_hooks makes sweep modify purge ◌>>=◌
  collect = do
    first_hooks
    mark_live
    run_gc_hooks free_hooks
    freed ← makes (λ s. counted (sweep d.fuel s))
    modify purge
    modify (λ (e : Engine). record e { in_gc = false })
    pure freed
