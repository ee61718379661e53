-- ===== src/Tests/Check.antt =====
-- A store of two pairs, of which the one at 56 holds the word 3, which is no object.
use x_engine_rust.Prelude.{◌+◌, ◌≡◌, refl, inl, inr, some, List, [], ◌∷◌, arith}
use mathlib.Core.List.{Memᴰ}
use mathlib.Core.List.Memᴰ
use x_engine_rust.Obj.{Obj, Word}
use x_engine_rust.Heap.{word}
use x_engine_rust.Objects.{Objects, flags_word, chain_next, flag_magic_bit}
use x_engine_rust.Collect.Chain.{Chain}
use x_engine_rust.Engine.Tables.{check_loop}
use x_engine_rust.Engine.Check.{IsMagic, check_loop_lem}
use x_engine_rust.Tests.{store}

abbrev broken_words : List Word
broken_words =
    0
    ∷ 0
    ∷ 0
    ∷ (flag_magic_bit + 0x0100)
    ∷ 2
    ∷ 8
    ∷ 0
    ∷ 8
    ∷ 0
    ∷ (flag_magic_bit + 0x0100)
    ∷ 2
    ∷ 3
    ∷ 0
    ∷ []

abbrev broken : Objects
broken = record store { heap = record { words = broken_words; allocations = 2; capacity = 1024 } }

link_56 : chain_next broken 56 ≡ 8
unfolding chain_next word
link_56 = refl

link_8 : chain_next broken 8 ≡ 0
unfolding chain_next word
link_8 = refl

broken-Chain : Chain broken 56 (56 ∷ 8 ∷ [])
broken-Chain = (
  refl,
  record { ne_nil = λ z. omega arith; aligned = omega arith; inside = omega arith },
  (inr (omega arith), tt),
  (
    link_56,
    record { ne_nil = λ z. omega arith; aligned = omega arith; inside = omega arith },
    tt,
    link_8,
  ),
)

magic_56 : flags_word broken 56 ≡ flag_magic_bit + 0x0100
unfolding flags_word word
magic_56 = refl

magic_8 : flags_word broken 8 ≡ flag_magic_bit + 0x0100
unfolding flags_word word
magic_8 = refl

all-IsMagic : (o : Obj) → Memᴰ o (56 ∷ 8 ∷ []) → IsMagic broken o
all-IsMagic o h = elim (Memᴰ.cases_cons h) [
  | inl e ↦ rw (e, magic_56) (omega arith)
  | inr z ↦ rw (Memᴰ.eq_of_singleton z, magic_8) (omega arith)
]

check_loop_example : check_loop 2 broken 56 0 ≡ some 0
check_loop_example =
    check_loop_lem (56 ∷ 8 ∷ []) 2 broken 56 0 broken-Chain all-IsMagic (omega arith)
