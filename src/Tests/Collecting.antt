-- ===== src/Tests/Collecting.antt =====
-- A store of two pairs, the one at 8 holding itself and the one at 56 holding the other, marked and
-- swept from the root 8.
use x_engine_rust.Prelude.{
  ℕ, ◌+◌, ◌-◌, ◌≤◌, ◌≡◌, refl, sym, ap, ◌∙◌, ◌≢◌, ◌↔◌, ◌⊎◌, inl, inr, true, false, none, some, List,
  [], ◌∷◌, arith, reverse,
}
use mathlib.Core.List.{Memᴰ}
use mathlib.Core.List.Memᴰ
use mathlib.Core.Bool.{true≢false}
use x_engine_rust.Obj.{Obj, Word, nil}
use x_engine_rust.Heap.{word}
use x_engine_rust.Heap.Words.{IsValid}
use x_engine_rust.Objects.{
  Objects, flags_word, kind_bits, type_of_word, data_len, chain_next, flag_magic_bit,
}
use x_engine_rust.Objects.Header.{IsPlace}
use x_engine_rust.Collect.{is_marked, mark, sweep, mark_bit}
use x_engine_rust.Collect.Chain.{Chain}
use x_engine_rust.Collect.Edges.{span, is_object, edges, Reachable}
use x_engine_rust.Collect.Marks.{IsTraced, Marks, Disjoint}
use x_engine_rust.Collect.Mark.{work, mark-Reachable}
use x_engine_rust.Collect.Whole.{Collected, mark-sweep, All-Memᴰ}
use x_engine_rust.Engine.{Engine, Door, out_of_fuel, ok}
use x_engine_rust.Engine.Boot.{bare_engine}
use x_engine_rust.Engine.Gc.{mark_stack, collect}
use x_engine_rust.Base.{get}
use x_engine_rust.Instructions.Counts.{mark_hooks, free_hooks}
use x_engine_rust.Engine.Collection.{held, collect-Collected}
use x_engine_rust.Tests.{store, All-bounded}

abbrev loop_words : List Word
loop_words =
    0
    ∷ 0
    ∷ 0
    ∷ (flag_magic_bit + 0x0100)
    ∷ 2
    ∷ 8
    ∷ 0
    ∷ 8
    ∷ 0
    ∷ (flag_magic_bit + 0x0100)
    ∷ 2
    ∷ 8
    ∷ 0
    ∷ []

abbrev clean : Objects
clean = record store { heap = record { words = loop_words; allocations = 2; capacity = 1024 } }

abbrev pairs : List Obj
pairs = 56 ∷ 8 ∷ []

in_pairs : {o : Obj} → Memᴰ o pairs → (o ≡ 56) ⊎ (o ≡ 8)
in_pairs h = elim (Memᴰ.cases_cons h) [ inl e ↦ inl e | inr z ↦ inr (Memᴰ.eq_of_singleton z) ]

by_pair : (P : Obj → Type 0) → P 56 → P 8 → {o : Obj} → Memᴰ o pairs → P o
by_pair P a b h = elim (in_pairs h) [ inl e ↦ rw e a | inr e ↦ rw e b ]

clean-IsValid : IsValid clean.heap
clean-IsValid = record {
  reserved = omega arith;
  within = omega arith;
  small = omega arith;
  bounded = All-bounded loop_words (
    omega arith,
    (
      omega arith,
      (
        omega arith,
        (
          omega arith,
          (
            omega arith,
            (
              omega arith,
              (
                omega arith,
                (
                  omega arith,
                  (omega arith, (omega arith, (omega arith, (omega arith, (omega arith, tt))))),
                ),
              ),
            ),
          ),
        ),
      ),
    ),
  );
}

edges_8 : edges clean 8 ≡ 0 ∷ 8 ∷ 0 ∷ []
unfolding type_of_word x_engine_rust.Collect.children word flags_word data_len
edges_8 = refl

edges_56 : edges clean 56 ≡ 0 ∷ 8 ∷ 0 ∷ []
unfolding type_of_word x_engine_rust.Collect.children word flags_word data_len
edges_56 = refl

nil_off : is_object clean 0 ≡ false
unfolding is_object
nil_off = refl

-- What either pair leads to, if it is an object, is the one at 8.
only_8 : {w : Obj} → Memᴰ w (0 ∷ 8 ∷ 0 ∷ []) → is_object clean w ≡ true → Memᴰ w pairs
only_8 {w} h obj = elim (Memᴰ.cases_cons h) [
  | inl e ↦ absurd (nil_is e)
  | inr z ↦ elim (Memᴰ.cases_cons z) [
    | inl e ↦ Memᴰ.tail (Memᴰ.head e)
    | inr y ↦ absurd (nil_is (Memᴰ.eq_of_singleton y))
  ]
]
  where
    nil_is : w ≢ 0
    nil_is e = true≢false (sym obj ∙ ap (is_object clean) e ∙ nil_off)

len_8 : data_len clean 8 ≡ 2
unfolding data_len word
len_8 = refl

len_56 : data_len clean 56 ≡ 2
unfolding data_len word
len_56 = refl

sized_at :
    (o : Obj)
    → data_len clean o ≡ 2
    → kind_bits (flags_word clean o) ≡ 0x100
    → span (kind_bits (flags_word clean o)) (data_len clean o) ≤ data_len clean o
sized_at o e k = rw (e, k) (omega arith)

kind_8 : kind_bits (flags_word clean 8) ≡ 0x100
unfolding flags_word word
kind_8 = refl

kind_56 : kind_bits (flags_word clean 56) ≡ 0x100
unfolding flags_word word
kind_56 = refl

unmarked_8 : is_marked clean 8 ≡ false
unfolding is_marked word
unmarked_8 = refl

unmarked_56 : is_marked clean 56 ≡ false
unfolding is_marked word
unmarked_56 = refl

place_8 : IsPlace clean.heap 8 (data_len clean 8)
place_8 =
    rw len_8 (record { ne_nil = λ z. omega arith; aligned = omega arith; inside = omega arith })

place_56 : IsPlace clean.heap 56 (data_len clean 56)
place_56 =
    rw len_56 (record { ne_nil = λ z. omega arith; aligned = omega arith; inside = omega arith })

clean-IsTraced : IsTraced clean pairs
clean-IsTraced = record {
  valid = clean-IsValid;
  place = λ h. by_pair (λ o. IsPlace clean.heap o (data_len clean o)) place_56 place_8 h;
  sized = λ h.
      by_pair (λ o. span (kind_bits (flags_word clean o)) (data_len clean o) ≤ data_len clean o)
        (sized_at 56 len_56 kind_56) (sized_at 8 len_8 kind_8) h;
  apart = λ {o} {p} h k.
      by_pair (λ q. (q ≡ p) ⊎ Disjoint clean q p)
        (by_pair (λ q. (56 ≡ q) ⊎ Disjoint clean 56 q) (inl refl) (inr (inr (omega (arith, len_8))))
          k)
        (by_pair (λ q. (8 ≡ q) ⊎ Disjoint clean 8 q) (inr (inl (omega (arith, len_8)))) (inl refl)
          k)
        h;
  unmarked = λ h. by_pair (λ o. is_marked clean o ≡ false) unmarked_56 unmarked_8 h;
  closed = λ {o} {w} h e obj.
      by_pair (λ p. Memᴰ w (edges clean p) → Memᴰ w pairs) (λ z. only_8 (rw edges_56 at z) obj)
        (λ z. only_8 (rw edges_8 at z) obj) h e;
}

from_8 : (w : Obj) → Memᴰ w (8 ∷ []) → is_object clean w ≡ true → Memᴰ w pairs
from_8 w h obj = Memᴰ.tail (Memᴰ.head (Memᴰ.eq_of_singleton h))

work_clean : work clean clean pairs ≡ 6
work_clean = rw (unmarked_8, unmarked_56, len_8, len_56) refl

mark-Reachable_example :
    (t : Objects) × (mark 7 (8 ∷ []) clean ≡ some t)
    × Marks clean pairs t
    × ((o : Obj) → Memᴰ o pairs → (is_marked t o ≡ true) ↔ Reachable clean (8 ∷ []) o)
mark-Reachable_example =
    mark-Reachable pairs (8 ∷ []) 7 clean clean-IsTraced from_8 (omega (arith, work_clean))

link_56 : chain_next clean 56 ≡ 8
unfolding chain_next word
link_56 = refl

link_8 : chain_next clean 8 ≡ nil
unfolding chain_next word
link_8 = refl

clean-Chain : Chain clean clean.heap_chain pairs
clean-Chain = (
  refl,
  record { ne_nil = λ z. omega arith; aligned = omega arith; inside = omega arith },
  (inr (omega arith), tt),
  (
    link_56,
    record { ne_nil = λ z. omega arith; aligned = omega arith; inside = omega arith },
    tt,
    link_8,
  ),
)

mark-sweep_example :
    (t u : Objects) × (freed : ℕ) × (mark 7 (8 ∷ []) clean ≡ some t)
    × (sweep 2 t ≡ some (u, freed))
    × (u.live ≡ clean.live - freed)
    × Collected clean (8 ∷ []) pairs u
mark-sweep_example =
    mark-sweep pairs (8 ∷ []) 7 2 clean clean-IsTraced clean-Chain from_8 refl
      (omega (arith, work_clean)) (omega arith) (omega arith) (omega arith)

-- An engine over the store, with the pair at 8 on its roots.
abbrev holding : Engine
holding = record (bare_engine clean 0) { roots = 8 ∷ [] }

abbrev doors : Door
doors = record {
  fuel = 40;
  eval = λ form env. out_of_fuel;
  combine = λ callee args env. out_of_fuel;
  entry = λ idx. none;
}

-- The roots of the engine: the base is nil, the two labels are the pair at 8.
abbrev pushed_roots : List Obj
pushed_roots = 0 ∷ 8 ∷ 8 ∷ 0 ∷ 0 ∷ 0 ∷ 8 ∷ 0 ∷ []

holding_stack : mark_stack 40 holding ≡ some pushed_roots
unfolding mark_stack
holding_stack = refl

holding_hooks : get clean 0 mark_hooks ≡ nil
unfolding get
holding_hooks = refl

nil_hooks : (t : Objects) → get t 0 free_hooks ≡ nil
unfolding get
nil_hooks t = refl

no_object : is_object clean 0 ≡ true → Memᴰ 0 pairs
unfolding is_object
no_object e = absurd (true≢false (sym e))

at_8 : is_object clean 8 ≡ true → Memᴰ 8 pairs
at_8 e = Memᴰ.tail (Memᴰ.head refl)

from_roots : (w : Obj) → Memᴰ w (reverse pushed_roots) → is_object clean w ≡ true → Memᴰ w pairs
from_roots w h =
    All-Memᴰ (λ w. is_object clean w ≡ true → Memᴰ w pairs) (reverse pushed_roots)
      (no_object, (at_8, (no_object, (no_object, (no_object, (at_8, (at_8, (no_object, tt)))))))) h

collect-Collected_example :
    (e' : Engine) × (freed : ℕ) × (collect doors holding ≡ some (ok freed, e'))
    × (e'.objects.live ≡ clean.live - freed)
    × Collected clean (reverse pushed_roots) pairs e'.objects
    × ((o : Obj)
        → Memᴰ o (held holding)
        → is_object clean o ≡ true
        → Memᴰ o pairs × (flags_word e'.objects o ≡ flags_word clean o))
    × (e'.roots ≡ 8 ∷ [])
    × (e'.in_gc ≡ false)
collect-Collected_example =
    collect-Collected doors holding pairs pushed_roots refl holding_hooks (λ t run. nil_hooks t)
      holding_stack clean-IsTraced clean-Chain from_roots refl (omega (arith, work_clean))
      (omega arith) (omega arith) (omega arith)
