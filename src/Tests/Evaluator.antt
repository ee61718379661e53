-- ===== src/Tests/Evaluator.antt =====
-- The allocation and the pending rows at concrete stores.
use x_engine_rust.Prelude.{
  ℕ, ◌+◌, ◌≤◌, ◌<◌, ◌≡◌, refl, ◌↔◌, ◌⊎◌, inl, true, false, none, some, [], ◌∷◌, ◌++◌, arith,
}
use x_engine_rust.Prelude.Int.{pos}
use x_engine_rust.Obj.{Obj, nil, word_index}
use x_engine_rust.Heap.{Heap, words_len, note_allocation, store_bytes}
use x_engine_rust.Objects.{
  Objects, bucket, with_heap, data_word, first, meta_extra, free_key, lay_out, count_alloc,
  meta_len,
}
use x_engine_rust.Objects.Header.{at_index, IsPlace}
use x_engine_rust.Objects.FreeList.{IsReady, lay_out-IsAllocated}
use x_engine_rust.Objects.Alloc.{IsAllocated}
use x_engine_rust.Objects.Exhausted.{lay_out-none, lay_out-IsReady}
use x_engine_rust.Objects.Kinds.{flag_pair, flag_int, flag_sym}
use x_engine_rust.Typed.Builtin.{stamp_for}
use x_engine_rust.Value.{as_int, is_int, is_char, is_ptr}
use x_engine_rust.Value.Make.{int, sym}
use x_engine_rust.Value.Interned.{sym-sym}
use x_engine_rust.Value.Atoms.{Stamps, int-as_int}
use x_engine_rust.Pending.{
  park_tail, tail_take, save_push, save_pop, nothing_pending, state_node, sn_save,
}
use x_engine_rust.Pending.Rows.{tail_take-park_tail, save_pop-save_push}
use x_engine_rust.Tests.{store, store-IsValid, store_words, All-bounded}
use x_engine_rust.Tests.Store.{store-IsReady, store-meta_extra}

lay_out-none_example : (lay_out store 8 flag_pair 2 ≡ none) ↔ (
    (bucket store.free (free_key 2 (meta_extra store)) ≡ [])
    × (store.heap.capacity < words_len store.heap + (meta_extra store + (meta_len + 2))))
lay_out-none_example =
    lay_out-none store 8 flag_pair 2 store-IsReady
      (record { low = omega arith; high = omega arith }) (omega arith) (omega arith)

made :
    (o : Obj) × (t : Objects) × (lay_out store 8 flag_pair 2 ≡ some (o, t))
    × IsAllocated store 8 flag_pair (meta_extra store) 2 o t
made =
    lay_out-IsAllocated store 8 flag_pair 2 store-IsReady
      (record { low = omega arith; high = omega arith }) (omega arith)
      (omega (arith, store-meta_extra))

lay_out-IsReady_example :
    IsReady made.1
    × (made.1.heap.capacity ≡ store.heap.capacity)
    × (words_len store.heap ≤ words_len made.1.heap)
    × (words_len made.1.heap ≤ words_len store.heap + (meta_extra store + (meta_len + 2)))
lay_out-IsReady_example =
    lay_out-IsReady store 8 flag_pair 2 made.0 made.1 store-IsReady
      (record { low = omega arith; high = omega arith }) (omega arith) (omega arith) made.2

store-Stamps : Stamps 0 store flag_int nil
unfolding stamp_for count_alloc note_allocation
store-Stamps = refl

int-as_int_example :
    (o : Obj) × (t : Objects) × (int 0 store (pos 42) ≡ some (o, t))
    × (is_int t o ≡ true)
    × (is_char t o ≡ false)
    × (is_ptr t o ≡ false)
    × (as_int t o ≡ pos 42)
    × (t.heap_chain ≡ o)
    × IsReady t
    × ((i : ℕ)
        → i < words_len store.heap
        → (i < word_index o) ⊎ (word_index o + (meta_len + 1) ≤ i)
        → at_index t.heap i ≡ at_index store.heap i)
int-as_int_example =
    int-as_int 0 store nil (pos 42) store-IsReady store-Stamps (omega arith) (omega arith)
      (omega arith) (omega (arith, store-meta_extra))

-- The store with its two pairs as the nodes of the rows.
abbrev rowed : Objects
rowed = record store { state_nodes = 56 ∷ 8 ∷ 56 ∷ 8 ∷ [] }

place_8 : IsPlace rowed.heap 8 2
place_8 = record { ne_nil = λ z. omega arith; aligned = omega arith; inside = omega arith }

place_56 : IsPlace rowed.heap 56 2
place_56 = record { ne_nil = λ z. omega arith; aligned = omega arith; inside = omega arith }

rowed-IsReady : IsReady rowed
rowed-IsReady = record {
  valid = store-IsValid;
  chained = omega arith;
  freed = record { sized = λ key. tt };
  reuses = refl;
}

rowed-meta_extra : meta_extra rowed ≡ 0
unfolding meta_extra first data_word
rowed-meta_extra = refl

tail_take-park_tail_example :
    (t : Objects) × (tail_take (park_tail rowed 104 8) ≡ (some (104, 8), t))
    × (tail_take t ≡ (none, t))
tail_take-park_tail_example =
    tail_take-park_tail rowed 104 8 store-IsValid place_8 place_56 (inl (omega arith)) (omega arith)
      (omega arith) (λ z. omega arith)

save_pop-save_push_example :
    (t : Objects) × (save_push rowed 8 ≡ some t)
    × (nothing_pending t ≡ false)
    × (first t (first t (state_node rowed sn_save)) ≡ 8)
    × (nothing_pending (save_pop t) ≡ nothing_pending rowed)
    × (first (save_pop t) (state_node rowed sn_save) ≡ first rowed (state_node rowed sn_save))
save_pop-save_push_example =
    save_pop-save_push rowed 8 rowed-IsReady (omega arith) (omega arith)
      (record { place = place_56; free = λ key. tt }) (omega (arith, rowed-meta_extra))

-- The arena of the store with the bytes of the name `a` at its end.
abbrev named_heap : Heap
named_heap = record { words = store_words ++ 97 ∷ []; allocations = 2; capacity = 1024 }

abbrev named : Objects
named = with_heap store named_heap

named_stored : store_bytes store.heap (97 ∷ []) ≡ some (104, named_heap)
unfolding store_bytes
named_stored = refl

named-IsReady : IsReady named
named-IsReady = record {
  valid = record {
    reserved = omega arith;
    within = omega arith;
    small = omega arith;
    bounded = All-bounded named_heap.words (
      omega arith,
      (
        omega arith,
        (
          omega arith,
          (
            omega arith,
            (
              omega arith,
              (
                omega arith,
                (
                  omega arith,
                  (
                    omega arith,
                    (
                      omega arith,
                      (omega arith, (omega arith, (omega arith, (omega arith, (omega arith, tt))))),
                    ),
                  ),
                ),
              ),
            ),
          ),
        ),
      ),
    );
  };
  chained = omega arith;
  freed = record { sized = λ key. tt };
  reuses = refl;
}

named-Stamps : Stamps 0 named flag_sym nil
unfolding stamp_for count_alloc note_allocation
named-Stamps = refl

named-meta_extra : meta_extra named ≡ 0
unfolding meta_extra first data_word
named-meta_extra = refl

sym-sym_example :
    (o : Obj) × (t : Objects) × (sym 0 store (97 ∷ []) ≡ some (o, t))
    × (sym 5 t (97 ∷ []) ≡ some (o, t))
sym-sym_example =
    sym-sym 0 5 store (97 ∷ []) 104 named_heap nil named_stored named-IsReady named-Stamps
      (omega arith) (omega arith) (omega (arith, named-meta_extra))
