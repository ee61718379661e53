-- ===== src/Engine/Collection.antt =====
-- src/collect.rs: a collection of the engine, with no hooks to run.
use mathlib.Core.List.{Memᴰ, reverse_aux}
use mathlib.Core.List.Memᴰ
use mathlib.Core.Path.{subst}
use mathlib.Core.Option.{some-injective, none-ne-some}
use x_engine_rust.Prelude.{
  ℕ, ◌+◌, ◌-◌, ◌≤◌, ◌≡◌, refl, ap, ◌∙◌, inl, inr, Bool, true, false, Option, none, some, List, [],
  ◌∷◌, ◌++◌, reverse, length, if◌then◌else◌,
}
use x_engine_rust.Obj.{Obj, IsWord, nil, is_nil}
use x_engine_rust.Objects.{Objects, flags_word}
use x_engine_rust.Value.{list}
use x_engine_rust.Base.{get}
use x_engine_rust.Collect.{mark, sweep}
use x_engine_rust.Collect.Chain.{Chain}
use x_engine_rust.Collect.Edges.{is_object, Reachable}
use x_engine_rust.Collect.Marks.{IsTraced}
use x_engine_rust.Collect.Mark.{work}
use x_engine_rust.Collect.Whole.{Collected, mark-sweep}
use x_engine_rust.Instructions.Counts.{mark_hooks, free_hooks, mark_roots, interned}
use x_engine_rust.Engine.{ok, Engine, pure, gets, makes, modify, ◌>>=◌, Door}
use x_engine_rust.Engine.Gc.{
  values, both, table_objects, recs_refs, snapshot_refs, tco_env_slot, root_set, mark_stack,
  env_root_set, purge, run_gc_hooks, first_hooks, marked, remarked, mark_live, collect, rooted_with,
  mark_stack_with,
}

onto_reversed : {o : Obj} (xs ys : List Obj) → Memᴰ o ys → Memᴰ o (reverse_aux xs ys)
onto_reversed [] ys h = h
onto_reversed (x ∷ xs) ys h = onto_reversed xs (x ∷ ys) (Memᴰ.tail h)

mem-reverse : {o : Obj} (xs ys : List Obj) → Memᴰ o xs → Memᴰ o (reverse_aux xs ys)
mem-reverse [] ys h = absurd (Memᴰ.not-nil h)
mem-reverse (x ∷ xs) ys h = elim (Memᴰ.cases_cons h) [
  | inl same ↦ onto_reversed xs (x ∷ ys) (Memᴰ.head same)
  | inr z ↦ mem-reverse xs (x ∷ ys) z
]

-- What is held by the roots, by the environment roots or by a control record.
abbrev pub held : Engine → List Obj
held e = e.roots ++ (e.env_roots ++ recs_refs e.control)

rooted_in :
    {o : Obj} (e : Engine) (library : Option (List Obj)) (objs : List Obj)
    → rooted_with e library ≡ some objs
    → Memᴰ o e.roots
    → Memᴰ o objs
rooted_in e none objs eq h = absurd (none-ne-some objs eq)
rooted_in {o} e (some library) objs eq h = subst (Memᴰ o) (some-injective _ objs eq) (
    Memᴰ.tail (
      Memᴰ.tail (
        Memᴰ.tail (
          Memᴰ.tail (
            Memᴰ.append_right e.objects.kind_handles (
              Memᴰ.append_right (values e.objects.other_kind_handles) (
                Memᴰ.append_right e.objects.int_states (
                  Memᴰ.append_right e.objects.eval_handlers (
                    Memᴰ.tail (
                      Memᴰ.tail (
                        Memᴰ.append_right (interned e.objects) (
                          Memᴰ.append_right (both e.prim_bindings) (
                            Memᴰ.append_right (table_objects (values e.base_syms)) (
                              Memᴰ.append_right e.line_stack (
                                Memᴰ.append_right e.base_stack
                                  (Memᴰ.append_left library h))))))))))))))))

env_in :
    {o : Obj} (b : Bool) (tco : Obj) (roots : List Obj)
    → Memᴰ o roots
    → Memᴰ o (if b then roots else tco ∷ roots)
env_in true tco roots h = h
env_in false tco roots h = Memᴰ.tail h

env_in_set : {o : Obj} (e : Engine) → Memᴰ o e.env_roots → Memᴰ o (env_root_set e)
unfolding env_root_set
env_in_set e h = Memᴰ.tail (
    env_in (is_nil (get e.objects e.base tco_env_slot)) (get e.objects e.base tco_env_slot)
      e.env_roots h)

stacked_in :
    {o : Obj} (e : Engine) (objs : Option (List Obj)) (stack : List Obj)
    → mark_stack_with e objs ≡ some stack
    → ((found : List Obj) → objs ≡ some found → Memᴰ o e.roots → Memᴰ o found)
    → Memᴰ o (held e)
    → Memᴰ o stack
stacked_in e none stack eq inside h = absurd (none-ne-some stack eq)
stacked_in {o} e (some objs) stack eq inside h =
    let snaps = snapshot_refs (values e.cont_snapshots) in
    subst (Memᴰ o) (some-injective _ stack eq) (elim (Memᴰ.append_cases e.roots h) [
      | inl z ↦
          Memᴰ.append_left (env_root_set e ++ (recs_refs e.control ++ snaps)) (inside objs refl z)
      | inr z ↦ Memᴰ.append_right objs (elim (Memᴰ.append_cases e.env_roots z) [
        | inl y ↦ Memᴰ.append_left (recs_refs e.control ++ snaps) (env_in_set e y)
        | inr y ↦ Memᴰ.append_right (env_root_set e) (Memᴰ.append_left snaps y)
      ])
    ])

held-stack :
    {o : Obj} (fuel : ℕ) (e : Engine) (stack : List Obj)
    → mark_stack fuel e ≡ some stack
    → Memᴰ o (held e)
    → Memᴰ o stack
unfolding mark_stack root_set
held-stack fuel e stack eq h =
    stacked_in e (root_set fuel e) stack eq
      (λ found. rooted_in e (list fuel e.objects (get e.objects e.base mark_roots)) found) h

mark_stack_busy :
    (fuel : ℕ) (e : Engine) → mark_stack fuel (record e { in_gc = true }) ≡ mark_stack fuel e
unfolding mark_stack root_set env_root_set
mark_stack_busy fuel e = refl

module _ (d : Door) where
  no_hooks :
      (slot : ℕ) (e : Engine)
      → get e.objects e.base slot ≡ nil
      → run_gc_hooks d slot e ≡ some (ok tt, e)
  unfolding run_gc_hooks gets pure ◌>>=◌
  no_hooks slot e h = rw h refl

  no_first_hooks :
      (e : Engine)
      → e.in_gc ≡ false
      → get e.objects e.base mark_hooks ≡ nil
      → first_hooks d e ≡ some (ok tt, record e { in_gc = true })
  unfolding first_hooks gets modify pure ◌>>=◌
  no_first_hooks e idle h = rw idle (no_hooks mark_hooks (record e { in_gc = true }) h)

  marked_form :
      (e : Engine) (stack : List Obj) (t : Objects)
      → mark_stack d.fuel e ≡ some stack
      → mark d.fuel (reverse stack) e.objects ≡ some t
      → mark_live d (record e { in_gc = true })
        ≡ some (ok tt, record e { in_gc = true; objects = t })
  unfolding mark_live
  marked_form e stack t stacked run =
      let busy = record e { in_gc = true } in
      ap (λ o. remarked d busy (marked d busy o)) (mark_stack_busy d.fuel e ∙ stacked)
      ∙ ap (remarked d busy) run

  abbrev after : Engine → Objects → Engine
  after e u = record (purge (record e { in_gc = true; objects = u })) { in_gc = false }

  collect_form :
      (e : Engine) (stack : List Obj) (t u : Objects) (freed : ℕ)
      → e.in_gc ≡ false
      → get e.objects e.base mark_hooks ≡ nil
      → get t e.base free_hooks ≡ nil
      → mark_stack d.fuel e ≡ some stack
      → mark d.fuel (reverse stack) e.objects ≡ some t
      → sweep d.fuel t ≡ some (u, freed)
      → collect d e ≡ some (ok freed, after e u)
  unfolding collect mark_live makes modify pure ◌>>=◌
  collect_form e stack t u freed idle first last stacked run swept =
      let busy = record e { in_gc = true } in
      rw
        (
          no_first_hooks e idle first,
          marked_form e stack t stacked run,
          no_hooks free_hooks (record busy { objects = t }) last,
          swept,
        )
        refl

-- A collection that is not inside of another, with no hook on the lists of the base before and after
-- the marking, on an allocation chain whose objects share no word, none of them marked, without
-- poisoning and with a live count that covers the chain, from roots that are objects of the chain
-- where they are objects at all: with fuel for both passes it returns, and the live count falls by
-- what it answers. The chain that is left holds just the objects that the roots lead to, and what
-- is not on it stands on the free list. An object that the roots, the environment roots or a
-- control record hold is still on the chain, its flags word as before. The roots stay, and no collection is on.
pub collect-Collected :
    (d : Door) (e : Engine) (xs stack : List Obj)
    → e.in_gc ≡ false
    → get e.objects e.base mark_hooks ≡ nil
    → ((t : Objects)
        → mark d.fuel (reverse stack) e.objects ≡ some t
        → get t e.base free_hooks ≡ nil)
    → mark_stack d.fuel e ≡ some stack
    → IsTraced e.objects xs
    → Chain e.objects e.objects.heap_chain xs
    → ((w : Obj) → Memᴰ w (reverse stack) → is_object e.objects w ≡ true → Memᴰ w xs)
    → e.objects.poison_freed ≡ false
    → length (reverse stack) + work e.objects e.objects xs ≤ d.fuel
    → length xs ≤ d.fuel
    → length xs ≤ e.objects.live
    → IsWord e.objects.live
    → (e' : Engine) × (freed : ℕ) × (collect d e ≡ some (ok freed, e'))
      × (e'.objects.live ≡ e.objects.live - freed)
      × Collected e.objects (reverse stack) xs e'.objects
      × ((o : Obj)
          → Memᴰ o (held e)
          → is_object e.objects o ≡ true
          → Memᴰ o xs × (flags_word e'.objects o ≡ flags_word e.objects o))
      × (e'.roots ≡ e.roots)
      × (e'.in_gc ≡ false)
unfolding purge
collect-Collected d e xs stack idle first last stacked a c start clean enough enough' covered
      small =
    let (t, u, freed, run, run', live, done) =
      mark-sweep xs (reverse stack) d.fuel d.fuel e.objects a c start clean enough enough' covered
        small in
    (
      after d e u,
      freed,
      collect_form d e stack t u freed idle first (last t run) stacked run run',
      live,
      done,
      (λ o h obj.
          let from = mem-reverse stack [] (held-stack d.fuel e stack stacked h) in
          (start o from obj, done.flags_kept o (start o from obj) (Reachable.root from obj))),
      refl,
      refl,
    )
