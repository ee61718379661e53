-- ===== src/Engine/Check.antt =====
-- src/prims/heap.rs: what `heap_check` finds on the objects of this engine.
use mathlib.Core.List.{Memᴰ}
use x_engine_rust.Prelude.{
  ℕ, zero, suc, ◌+◌, ◌*◌, ◌/◌, ◌%◌, ◌^◌, ◌≤◌, bit_and, ◌≡◌, ◌≢◌, refl, sym, ap, ◌∙◌, some, List, [],
  ◌∷◌, if◌then◌else◌, arith, ne→==_false, ==_iff, length,
}
use x_engine_rust.Prelude.Bits.{bit_and_mask}
use x_engine_rust.Obj.{Obj, is_nil, bit_not}
use x_engine_rust.Objects.{Objects, flags_word, chain_next, flag_magic_bit}
use x_engine_rust.Objects.Kinds.{flag_pair, flag_spair, flag_envh}
use x_engine_rust.Collect.{mark_bit}
use x_engine_rust.Collect.Chain.{Chain}
use x_engine_rust.Engine.Tables.{bad_slots, check_loop}

-- The flags word of an object that was allocated has the magic bit.
abbrev pub IsMagic : Objects → Obj → Type 0
IsMagic s o = flag_magic_bit ≤ flags_word s o % 2 ^ 63

unmarked_bits : (w : ℕ) → bit_and w (bit_not mark_bit) ≡ w % 2 ^ 63
unmarked_bits w =
    let split : w ≡ w / 2 ^ 63 * 2 ^ 63 + w % 2 ^ 63 = omega arith in
    ap (λ x. bit_and x (bit_not mark_bit)) split
    ∙ bit_and_mask 63 (w / 2 ^ 63) (w % 2 ^ 63) (omega arith)

-- With the magic bit left in it, the flags word is that of no kind.
bad_slots-IsMagic : (s : Objects) (o : Obj) → IsMagic s o → bad_slots s o ≡ 0
unfolding bad_slots
bad_slots-IsMagic s o magic =
    let f = flags_word s o % 2 ^ 63 in
    rw
      (
        unmarked_bits (flags_word s o),
        ne→==_false f flag_pair (λ e. omega arith),
        ne→==_false f flag_spair (λ e. omega arith),
        ne→==_false f flag_envh (λ e. omega arith),
      )
      refl

-- On a chain of objects that links to nil, each of them with the magic bit that allocation sets,
-- the walk of the heap check returns with fuel for each, and it finds nothing, whatever the slots of
-- the objects hold.
pub check_loop_lem :
    (xs : List Obj) (fuel : ℕ) (s : Objects) (at : Obj) (bad : ℕ)
    → Chain s at xs
    → ((o : Obj) → Memᴰ o xs → IsMagic s o)
    → length xs ≤ fuel
    → check_loop fuel s at bad ≡ some bad
check_loop_lem [] fuel s at bad e magic enough = check_end fuel
  where
    check_end : (fuel : ℕ) → check_loop fuel s at bad ≡ some bad
    check_end zero = unfold check_loop in rw e refl
    check_end (suc fuel) = unfold check_loop in rw ((==_iff at 0).1 e) refl
check_loop_lem (o ∷ xs) zero s at bad c magic enough = absurd (omega arith)
check_loop_lem (o ∷ xs) (suc fuel) s at bad (e, place, apart, c) magic enough =
    let ih =
      check_loop_lem xs fuel s (chain_next s o) bad c (λ p h. magic p (Memᴰ.tail h))
        (omega arith) in
    check_form ∙ rw (ne→==_false at 0 not_end, same, none_bad, same_count) ih
  where
    not_end : at ≢ 0
    not_end z = place.ne_nil (sym e ∙ z)

    same : chain_next s at ≡ chain_next s o
    same = ap (chain_next s) e

    none_bad : bad_slots s at ≡ 0
    none_bad = ap (bad_slots s) e ∙ bad_slots-IsMagic s o (magic o (Memᴰ.head refl))

    same_count : bad + 0 ≡ bad
    same_count = omega arith

    check_form : check_loop (suc fuel) s at bad ≡ (
        if is_nil at then some bad else check_loop fuel s (chain_next s at) (bad + bad_slots s at))
    check_form = unfold check_loop in refl
