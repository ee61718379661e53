-- ===== src/Collect/Visit.antt =====
-- src/collect.rs: the three outcomes of a round of `mark`, and what it pushes.
use x_engine_rust.Prelude.{
  ◌+◌, bit_and, ◌≡◌, refl, sym, ◌∙◌, ◌⊎◌, inl, inr, Bool, true, false, not, ◌&&◌, ◌||◌, List, [],
  ◌∷◌, arith, ◌==◌, if◌then◌else◌, Bool-cases, length,
}
use mathlib.Core.List.{Memᴰ}
use mathlib.Core.List.Memᴰ
use mathlib.Core.Bool.{true≢false}
use x_engine_rust.Obj.{Obj, is_nil}
use x_engine_rust.Objects.{Objects, flags_word, kind_bits, type_of_word, data_len, flag_magic_bit}
use x_engine_rust.Collect.{is_marked, set_mark, children, plausible, push_each, visit}
use x_engine_rust.Collect.Edges.{is_object}
use x_engine_rust.Collect.Marks.{
  IsTraced, Marks, Marks-is_object, Marks-children, Marks-type_of_word, set_mark-Marks,
}

pub Memᴰ-push_each_inv :
    (xs ys : List Obj) {w : Obj} → Memᴰ w (push_each xs ys) → Memᴰ w xs ⊎ Memᴰ w ys
unfolding push_each
Memᴰ-push_each_inv [] ys h = inr h
Memᴰ-push_each_inv (x ∷ xs) ys h = elim (Memᴰ-push_each_inv xs (x ∷ ys) h) [
  | inl z ↦ inl (Memᴰ.tail z)
  | inr z ↦ elim (Memᴰ.cases_cons z) [ inl e ↦ inl (Memᴰ.head e) | inr y ↦ inr y ]
]

pub Memᴰ-push_each_right : (xs ys : List Obj) {w : Obj} → Memᴰ w ys → Memᴰ w (push_each xs ys)
unfolding push_each
Memᴰ-push_each_right [] ys h = h
Memᴰ-push_each_right (x ∷ xs) ys h = Memᴰ-push_each_right xs (x ∷ ys) (Memᴰ.tail h)

pub Memᴰ-push_each_left : (xs ys : List Obj) {w : Obj} → Memᴰ w xs → Memᴰ w (push_each xs ys)
unfolding push_each
Memᴰ-push_each_left [] ys h = absurd (Memᴰ.not-nil h)
Memᴰ-push_each_left (x ∷ xs) ys h = elim (Memᴰ.cases_cons h) [
  | inl e ↦ Memᴰ-push_each_right xs (x ∷ ys) (Memᴰ.head e)
  | inr z ↦ Memᴰ-push_each_left xs (x ∷ ys) z
]

pub length-push_each : (xs ys : List Obj) → length (push_each xs ys) ≡ length xs + length ys
unfolding push_each
length-push_each [] ys = omega arith
length-push_each (x ∷ xs) ys = omega (arith, length-push_each xs (x ∷ ys))

abbrev pub with_type : Obj → List Obj → List Obj
with_type ty stack = if is_nil ty then stack else ty ∷ stack

visit_form :
    (t : Objects) (o : Obj) (stack : List Obj)
    → visit t o stack ≡ (
        if is_nil o || not (plausible t o) || is_marked t o
        then (t, stack)
        else if bit_and (flags_word t o) flag_magic_bit == 0
        then (t, stack)
        else (
          set_mark t o,
          push_each
              (children
                (set_mark t o)
                o
                (kind_bits (flags_word (set_mark t o) o))
                (data_len (set_mark t o) o))
              (with_type (type_of_word (set_mark t o) o) stack),
        ))
unfolding visit
visit_form t o stack = refl

is_object_form :
    (t : Objects) (o : Obj)
    → is_object t o ≡ (plausible t o && not (bit_and (flags_word t o) flag_magic_bit == 0))
unfolding is_object
is_object_form t o = refl

plausible_ne_nil : (s : Objects) (o : Obj) → is_nil o ≡ true → plausible s o ≡ false
unfolding plausible
plausible_ne_nil s o e = rw e refl

pub object_ne_nil : (s : Objects) (o : Obj) → is_object s o ≡ true → is_nil o ≡ false
object_ne_nil s o e = elim (Bool-cases (is_nil o)) [
  | inl z ↦ absurd (true≢false (sym e ∙ is_object_form s o ∙ rw (plausible_ne_nil s o z) refl))
  | inr z ↦ z
]

module _ {ℓ} {A : Type ℓ} (x y : A) where
  skip_other :
      (n p b g : Bool)
      → (p && not g) ≡ false
      → (if n || not p || b then x else if g then x else y) ≡ x
  skip_other true p b g e = refl
  skip_other false false b g e = refl
  skip_other false true true g e = refl
  skip_other false true false true e = refl
  skip_other false true false false e = absurd (true≢false e)

  skip_marked : (n p g : Bool) → (if n || not p || true then x else if g then x else y) ≡ x
  skip_marked true p g = refl
  skip_marked false true g = refl
  skip_marked false false g = refl

  proceed :
      (p g : Bool)
      → (p && not g) ≡ true
      → (if false || not p || false then x else if g then x else y) ≡ y
  proceed true false e = refl
  proceed true true e = absurd (true≢false (sym e))
  proceed false g e = absurd (true≢false (sym e))

-- The three outcomes of a round.
module _ {s t : Objects} {objs : List Obj} (a : IsTraced s objs) (m : Marks s objs t) (o : Obj)
    (stack : List Obj) where
  pub visit_other : is_object s o ≡ false → visit t o stack ≡ (t, stack)
  visit_other e =
      visit_form t o stack
      ∙ skip_other _ _ (is_nil o) (plausible t o) (is_marked t o)
          (bit_and (flags_word t o) flag_magic_bit == 0)
          (sym (is_object_form t o) ∙ Marks-is_object a m o ∙ e)

  pub visit_marked : is_marked t o ≡ true → visit t o stack ≡ (t, stack)
  visit_marked e =
      visit_form t o stack
      ∙ rw e (
          skip_marked _ _ (is_nil o) (plausible t o) (bit_and (flags_word t o) flag_magic_bit == 0))

  pub visit_fresh :
      Memᴰ o objs
      → is_object s o ≡ true
      → is_marked t o ≡ false
      → visit t o stack ≡ (
        set_mark t o,
        push_each
            (children s o (kind_bits (flags_word s o)) (data_len s o))
            (with_type (type_of_word s o) stack),
      )
  visit_fresh h e fresh =
      let m' = set_mark-Marks a m h fresh in
      visit_form t o stack
      ∙ rw (fresh, object_ne_nil s o e, (Marks-children a m' h).0, Marks-type_of_word a m' h)
          (proceed _ _ (plausible t o) (bit_and (flags_word t o) flag_magic_bit == 0)
            (sym (is_object_form t o) ∙ Marks-is_object a m o ∙ e))
