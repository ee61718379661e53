-- ===== src/Collect/Tracing.antt =====
-- src/collect.rs: the loop of `mark`, with what it keeps between rounds and the fuel that it needs.
use x_engine_rust.Prelude.{
  ◌≡◌, refl, sym, ap, ◌∙◌, ◌⊎◌, inl, inr, true, false, ◌||◌, List, ◌∷◌, ◌==◌, ==_iff, Bool-cases,
}
use mathlib.Core.List.{Memᴰ}
use mathlib.Core.List.Memᴰ
use mathlib.Core.Bool.{true≢false}
use x_engine_rust.Obj.{Obj, is_nil}
use x_engine_rust.Objects.{Objects, flags_word, kind_bits, type_of_word, data_len}
use x_engine_rust.Collect.{is_marked, set_mark, children, push_each}
use x_engine_rust.Collect.Visit.{
  Memᴰ-push_each_inv, Memᴰ-push_each_right, Memᴰ-push_each_left, with_type, object_ne_nil,
}
use x_engine_rust.Collect.Edges.{is_object, edges, Reachable}
use x_engine_rust.Collect.Marks.{IsTraced, Marks, set_mark-Marks, is_marked-set_mark}

-- Between rounds, with `stack` still to visit: what a marked object leads to is marked or on the
-- stack, and so is each root; what is marked or on the stack can be reached.
pub record Tracing (s : Objects) (objs roots : List Obj) (t : Objects) (stack : List Obj)
    : Type 0 where
  pub marks : Marks s objs t
  pub black :
      {o w : Obj}
      → Memᴰ o objs
      → is_marked t o ≡ true
      → Memᴰ w (edges s o)
      → is_object s w ≡ true
      → (is_marked t w ≡ true) ⊎ Memᴰ w stack
  pub rooted :
      {w : Obj} → Memᴰ w roots → is_object s w ≡ true → (is_marked t w ≡ true) ⊎ Memᴰ w stack
  pub sound : {o : Obj} → Memᴰ o objs → is_marked t o ≡ true → Reachable s roots o
  pub grey : {w : Obj} → Memᴰ w stack → is_object s w ≡ true → Memᴰ w objs × Reachable s roots w

module _ (s : Objects) (objs roots : List Obj) (a : IsTraced s objs)
    (start : (w : Obj) → Memᴰ w roots → is_object s w ≡ true → Memᴰ w objs) where
  -- A word popped without effect.
  pub drop-Tracing :
      {t : Objects} {o : Obj} {stack : List Obj}
      → Tracing s objs roots t (o ∷ stack)
      → (is_object s o ≡ false) ⊎ (is_marked t o ≡ true)
      → Tracing s objs roots t stack
  drop-Tracing {t} {o} {stack} k why = record {
    marks = k.marks;
    black = λ h marked e obj. shorter obj (k.black h marked e obj);
    rooted = λ h obj. shorter obj (k.rooted h obj);
    sound = k.sound;
    grey = λ h obj. k.grey (Memᴰ.tail h) obj;
  }
    where
      shorter :
          {w : Obj}
          → is_object s w ≡ true
          → (is_marked t w ≡ true) ⊎ Memᴰ w (o ∷ stack)
          → (is_marked t w ≡ true) ⊎ Memᴰ w stack
      shorter obj (inl marked) = inl marked
      shorter obj (inr h) = elim (Memᴰ.cases_cons h) [
        | inl e ↦ elim why [
          | inl other ↦ absurd (true≢false (sym obj ∙ ap (is_object s) e ∙ other))
          | inr marked ↦ inl (ap (is_marked t) e ∙ marked)
        ]
        | inr behind ↦ inr behind
      ]

  -- The stack after a fresh object: its edges on the rest.
  abbrev pub onto : Obj → List Obj → List Obj
  onto o stack =
      push_each (children s o (kind_bits (flags_word s o)) (data_len s o))
        (with_type (type_of_word s o) stack)

  onto_later : (o : Obj) (stack : List Obj) {w : Obj} → Memᴰ w stack → Memᴰ w (onto o stack)
  onto_later o stack h = Memᴰ-push_each_right _ _ (with_later (type_of_word s o) h)
    where
      with_later : (ty : Obj) {w : Obj} → Memᴰ w stack → Memᴰ w (with_type ty stack)
      with_later ty h = elim (Bool-cases (is_nil ty)) [
        | inl e ↦ rw e h
        | inr e ↦ rw e (Memᴰ.tail h)
      ]

  onto_edge :
      (o : Obj) (stack : List Obj) {w : Obj}
      → Memᴰ w (edges s o)
      → is_object s w ≡ true
      → Memᴰ w (onto o stack)
  onto_edge o stack {w} h obj = elim (Memᴰ.cases_cons h) [
    | inl e ↦ Memᴰ-push_each_right _ _ (typed (type_of_word s o) e)
    | inr c ↦ Memᴰ-push_each_left _ _ c
  ]
    where
      typed : (ty : Obj) → w ≡ ty → Memᴰ w (with_type ty stack)
      typed ty e =
          let ne : is_nil ty ≡ false = ap is_nil (sym e) ∙ object_ne_nil s w obj in
          rw ne (Memᴰ.head e)

  onto_inv :
      (o : Obj) (stack : List Obj) {w : Obj}
      → Memᴰ w (onto o stack)
      → Memᴰ w (edges s o) ⊎ Memᴰ w stack
  onto_inv o stack {w} h = elim (Memᴰ-push_each_inv _ _ h) [
    | inl c ↦ inl (Memᴰ.tail c)
    | inr z ↦ typed (type_of_word s o) refl z
  ]
    where
      typed :
          (ty : Obj)
          → ty ≡ type_of_word s o
          → Memᴰ w (with_type ty stack)
          → Memᴰ w (edges s o) ⊎ Memᴰ w stack
      typed ty same z = elim (Bool-cases (is_nil ty)) [
        | inl e ↦ inr (rw e at z)
        | inr e ↦ elim (Memᴰ.cases_cons (rw e at z)) [
          | inl here ↦ inl (Memᴰ.head (here ∙ same))
          | inr later ↦ inr later
        ]
      ]

  pub fresh-Tracing :
      {t : Objects} {o : Obj} {stack : List Obj}
      → Tracing s objs roots t (o ∷ stack)
      → is_object s o ≡ true
      → is_marked t o ≡ false
      → Tracing s objs roots (set_mark t o) (onto o stack)
  fresh-Tracing {t} {o} {stack} k obj fresh = record {
    marks = set_mark-Marks a k.marks known fresh;
    black = λ {o = p} {w} h marked e obj'. elim (Bool-cases (p == o)) [
      | inl z ↦ inr (onto_edge o stack (at_o p z e) obj')
      | inr z ↦ later (a.closed h e obj') (k.black h (was z h marked) e obj')
    ];
    rooted = λ h obj'. later (start _ h obj') (k.rooted h obj');
    sound = λ {o = p} h marked. elim (Bool-cases (p == o)) [
      | inl z ↦ rw ((==_iff p o).0 z) reached
      | inr z ↦ k.sound h (was z h marked)
    ];
    grey = λ h obj'. elim (onto_inv o stack h) [
      | inl e ↦ (a.closed known e obj', Reachable.edge reached e obj')
      | inr behind ↦ k.grey (Memᴰ.tail behind) obj'
    ];
  }
    where
      known : Memᴰ o objs
      known = (k.grey (Memᴰ.head refl) obj).0

      reached : Reachable s roots o
      reached = (k.grey (Memᴰ.head refl) obj).1

      now : {p : Obj} → Memᴰ p objs → is_marked (set_mark t o) p ≡ (p == o || is_marked t p)
      now h = is_marked-set_mark a k.marks known fresh h

      was :
          {p : Obj}
          → (p == o) ≡ false
          → Memᴰ p objs
          → is_marked (set_mark t o) p ≡ true
          → is_marked t p ≡ true
      was {p} z h marked = ap (λ b. b || is_marked t p) (sym z) ∙ sym (now h) ∙ marked

      at_o : (p : Obj) {w : Obj} → (p == o) ≡ true → Memᴰ w (edges s p) → Memᴰ w (edges s o)
      at_o p {w} z e = rw ((==_iff p o).0 z) at e

      later :
          {w : Obj}
          → Memᴰ w objs
          → (is_marked t w ≡ true) ⊎ Memᴰ w (o ∷ stack)
          → (is_marked (set_mark t o) w ≡ true) ⊎ Memᴰ w (onto o stack)
      later {w} h (inl marked) =
          inl (now h ∙ elim (Bool-cases (w == o)) [ inl z ↦ rw z refl | inr z ↦ rw z marked ])
      later {w} h (inr on) = elim (Memᴰ.cases_cons on) [
        | inl e ↦ inl (now h ∙ rw ((==_iff w o).1 e) refl)
        | inr z ↦ inr (onto_later o stack z)
      ]
