-- ===== src/Collect/Mark.antt =====
-- src/collect.rs: `mark` as a whole. Each round takes a word off the stack, and a round that marks
-- an object puts at most one word more on it than the object has data words.
use x_engine_rust.Prelude.{
  ℕ, zero, suc, ◌+◌, ◌≤◌, ◌≡◌, refl, sym, ap, ◌∙◌, ◌↔◌, ◌⊎◌, inl, inr, Bool, true, false, ◌||◌,
  some, List, [], ◌∷◌, arith, ◌==◌, if◌then◌else◌, ==_iff, Bool-cases, length,
}
use mathlib.Core.List.{Memᴰ}
use mathlib.Core.List.Memᴰ
use mathlib.Core.Bool.{true≢false}
use x_engine_rust.Obj.{Obj, is_nil}
use x_engine_rust.Objects.{Objects, flags_word, kind_bits, type_of_word, data_len}
use x_engine_rust.Collect.{is_marked, set_mark, children, visit, mark}
use x_engine_rust.Collect.Visit.{
  length-push_each, with_type, visit_other, visit_marked, visit_fresh,
}
use x_engine_rust.Collect.Edges.{is_object, Reachable}
use x_engine_rust.Collect.Marks.{IsTraced, Marks, Marks-refl, Marks-children, is_marked-set_mark}
use x_engine_rust.Collect.Tracing.{Tracing, drop-Tracing, fresh-Tracing, onto}

-- The rounds that the objects without a mark can still cost.
abbrev pub work : Objects → Objects → List Obj → ℕ
work s t [] = 0
work s t (o ∷ objs) = (if is_marked t o then 0 else 1 + data_len s o) + work s t objs

length-with_type : (ty : Obj) (stack : List Obj) → length (with_type ty stack) ≤ 1 + length stack
length-with_type ty stack = elim (Bool-cases (is_nil ty)) [
  | inl e ↦ rw e (omega arith)
  | inr e ↦ rw e (omega arith)
]

module _ (s : Objects) (objs roots : List Obj) (a : IsTraced s objs)
    (start : (w : Obj) → Memᴰ w roots → is_object s w ≡ true → Memᴰ w objs) where
  share : (b m : Bool) (c : ℕ) → (if b || m then 0 else c) ≤ (if m then 0 else c)
  share true true c = omega arith
  share true false c = omega arith
  share false true c = omega arith
  share false false c = omega arith

  work_at_most :
      (t u : Objects) (o : Obj) (ps : List Obj)
      → ((p : Obj) → Memᴰ p ps → is_marked u p ≡ (p == o || is_marked t p))
      → work s u ps ≤ work s t ps
  work_at_most t u o [] now = omega arith
  work_at_most t u o (p ∷ ps) now =
      let ih = work_at_most t u o ps (λ q h. now q (Memᴰ.tail h)) in
      rw (now p (Memᴰ.head refl)) (omega (arith, share (p == o) (is_marked t p) (1 + data_len s p)))

  -- Marking an object takes its share off the work.
  work_falls :
      (t u : Objects) (o : Obj) (ps : List Obj)
      → is_marked t o ≡ false
      → ((p : Obj) → Memᴰ p ps → is_marked u p ≡ (p == o || is_marked t p))
      → Memᴰ o ps
      → work s u ps + (1 + data_len s o) ≤ work s t ps
  work_falls t u o [] fresh now h = absurd (Memᴰ.not-nil h)
  work_falls t u o (p ∷ ps) fresh now h = elim (Memᴰ.cases_cons h) [
    | inl e ↦
        let here : is_marked t p ≡ false = ap (is_marked t) (sym e) ∙ fresh in
        let rest_of = work_at_most t u o ps (λ q z. now q (Memᴰ.tail z)) in
        let same : data_len s o ≡ data_len s p = ap (data_len s) e in
        rw (now p (Memᴰ.head refl), (==_iff p o).1 (sym e), here) (omega arith)
    | inr z ↦
        let ih = work_falls t u o ps fresh (λ q z. now q (Memᴰ.tail z)) z in
        rw (now p (Memᴰ.head refl))
          (omega (arith, share (p == o) (is_marked t p) (1 + data_len s p)))
  ]

  length-onto :
      (o : Obj)
      → Memᴰ o objs
      → (stack : List Obj)
      → length (onto s objs roots a start o stack) ≤ 1 + data_len s o + length stack
  length-onto o h stack =
      let few = (Marks-children a (Marks-refl a) h).1 in
      let more = length-with_type (type_of_word s o) stack in
      omega (
        arith,
        length-push_each (children s o (kind_bits (flags_word s o)) (data_len s o))
            (with_type (type_of_word s o) stack),
      )

  mark_step :
      (fuel : ℕ) (t u : Objects) (o : Obj) (stack stack' : List Obj)
      → visit t o stack ≡ (u, stack')
      → mark (suc fuel) (o ∷ stack) t ≡ mark fuel stack' u
  mark_step fuel t u o stack stack' e =
      unfold mark in ap (λ (r : Objects × List Obj). mark fuel r.1 r.0) e

  trace :
      (fuel : ℕ) (t : Objects) (stack : List Obj)
      → Tracing s objs roots t stack
      → length stack + work s t objs ≤ fuel
      → (u : Objects) × (mark fuel stack t ≡ some u) × Tracing s objs roots u []
  unfolding mark
  trace fuel t [] k enough = (t, stop fuel, k)
    where
      stop : (fuel : ℕ) → mark fuel [] t ≡ some t
      stop zero = refl
      stop (suc fuel) = refl
  trace zero t (o ∷ stack) k enough = absurd (omega arith)
  trace (suc fuel) t (o ∷ stack) k enough = elim (Bool-cases (is_object s o)) [
    | inr e ↦
        let (u, run, z) =
          trace fuel t stack (drop-Tracing s objs roots a start k (inl e)) (omega arith) in
        (u, mark_step fuel t t o stack stack (visit_other a k.marks o stack e) ∙ run, z)
    | inl e ↦ elim (Bool-cases (is_marked t o)) [
      | inl d ↦
          let (u, run, z) =
            trace fuel t stack (drop-Tracing s objs roots a start k (inr d)) (omega arith) in
          (u, mark_step fuel t t o stack stack (visit_marked a k.marks o stack d) ∙ run, z)
      | inr d ↦
          let h = (k.grey (Memᴰ.head refl) e).0 in
          let falls =
            work_falls t (set_mark t o) o objs d (λ p hp. is_marked-set_mark a k.marks h d hp) h in
          let grows = length-onto o h stack in
          let (u, run, z) =
            trace fuel (set_mark t o) (onto s objs roots a start o stack)
              (fresh-Tracing s objs roots a start k e d) (omega arith) in
          (
            u,
            mark_step fuel t (set_mark t o) o stack (onto s objs roots a start o stack)
                  (visit_fresh a k.marks o stack h e d)
                ∙ run,
            z,
          )
    ]
  ]

-- The mark pass from the roots, over objects of which none is marked, with fuel for the roots and
-- for each object with its data: it returns; the objects marked are just those that the roots lead
-- to; the arena is valid, no field but the arena changes, and a word of the arena changes only if
-- it is the flags word of an object, and then in its top bit alone.
pub mark-Reachable :
    (objs roots : List Obj) (fuel : ℕ) (s : Objects)
    → IsTraced s objs
    → ((w : Obj) → Memᴰ w roots → is_object s w ≡ true → Memᴰ w objs)
    → length roots + work s s objs ≤ fuel
    → (t : Objects) × (mark fuel roots s ≡ some t)
      × Marks s objs t
      × ((o : Obj) → Memᴰ o objs → (is_marked t o ≡ true) ↔ Reachable s roots o)
mark-Reachable objs roots fuel s a start enough =
    let (t, run, k) = trace s objs roots a start fuel s roots first_round enough in
    (t, run, k.marks, λ o h. (λ marked. k.sound h marked, λ r. (reaches t k r).1))
  where
    first_round : Tracing s objs roots s roots
    first_round = record {
      marks = Marks-refl a;
      black = λ h marked e obj. absurd (true≢false (sym marked ∙ a.unmarked h));
      rooted = λ h obj. inr h;
      sound = λ h marked. absurd (true≢false (sym marked ∙ a.unmarked h));
      grey = λ h obj. (start _ h obj, Reachable.root h obj);
    }

    settled : (t : Objects) (w : Obj) → (is_marked t w ≡ true) ⊎ Memᴰ w [] → is_marked t w ≡ true
    settled t w (inl e) = e
    settled t w (inr h) = absurd (Memᴰ.not-nil h)

    reaches :
        (t : Objects) {o : Obj}
        → Tracing s objs roots t []
        → Reachable s roots o
        → Memᴰ o objs × (is_marked t o ≡ true)
    reaches t {o} k (Reachable.root h obj) = (start o h obj, settled t o (k.rooted h obj))
    reaches t {o} k (Reachable.edge r e obj) =
        let (h, marked) = reaches t k r in (a.closed h e obj, settled t o (k.black h marked e obj))
