-- ===== src/Tests/Store.antt =====
-- Objects of a concrete store: two pairs, of which the older is marked.
use x_engine_rust.Prelude.{
  ℕ, ◌+◌, ◌-◌, ◌≤◌, ◌<◌, ◌≡◌, refl, ◌⊎◌, inr, true, false, some, List, [], ◌∷◌, arith, ◌==◌,
  if◌then◌else◌,
}
use x_engine_rust.Obj.{Obj, nil, word_index}
use x_engine_rust.Heap.{words_len, word}
use x_engine_rust.Heap.Words.{IsValid}
use x_engine_rust.Objects.{
  Objects, flags_word, data_word, set_data, chain_next, first, rest, meta_extra, lay_out, meta_len,
}
use x_engine_rust.Objects.Header.{at_index, IsPlace, data_word-set_data}
use x_engine_rust.Objects.Alloc.{IsAllocated}
use x_engine_rust.Objects.FreeList.{All, IsReady, lay_out-IsAllocated}
use x_engine_rust.Objects.Kinds.{flag_pair}
use x_engine_rust.Collect.{is_marked, sweep_key, sweep}
use x_engine_rust.Collect.Chain.{Chain}
use x_engine_rust.Collect.Round.{swept_flags}
use x_engine_rust.Collect.Rounds.{kept_onto, dead, released}
use x_engine_rust.Instructions.Counts.{count_loop, count_loop-length}
use x_engine_rust.Collect.Sweep.{sweep-Swept}
use x_engine_rust.Value.{spair, is_spair, is_pair}
use x_engine_rust.Value.Pairs.{spair_lem}
use x_engine_rust.Tests.{store, store-IsValid}

place_at_8 : IsPlace store.heap 8 2
place_at_8 = record { ne_nil = λ z. omega arith; aligned = omega arith; inside = omega arith }

place_at_56 : IsPlace store.heap 56 2
place_at_56 = record { ne_nil = λ z. omega arith; aligned = omega arith; inside = omega arith }

pub store-IsReady : IsReady store
store-IsReady = record {
  valid = store-IsValid;
  chained = omega arith;
  freed = record { sized = λ key. tt };
  reuses = refl;
}

data_word-set_data_example :
    data_word (set_data store 56 0 77) 56 1 ≡ (if 1 == 0 then 77 else data_word store 56 1)
data_word-set_data_example =
    data_word-set_data store store-IsValid place_at_56 0 1 77 (omega arith) (omega arith)
      (omega arith)

pub store-meta_extra : meta_extra store ≡ 0
unfolding meta_extra first data_word
store-meta_extra = refl

lay_out-IsAllocated_example :
    (o : Obj) × (t : Objects) × (lay_out store 8 flag_pair 2 ≡ some (o, t))
    × IsAllocated store 8 flag_pair (meta_extra store) 2 o t
lay_out-IsAllocated_example =
    lay_out-IsAllocated store 8 flag_pair 2 store-IsReady
      (record { low = omega arith; high = omega arith }) (omega arith)
      (omega (arith, store-meta_extra))

spair_lem_example :
    (o : Obj) × (t : Objects) × (spair store 8 56 ≡ some (o, t))
    × IsValid t.heap
    × IsPlace t.heap o 2
    × (t.heap_chain ≡ o)
    × (first t o ≡ 8)
    × (rest t o ≡ 56)
    × (is_spair t o ≡ true)
    × (is_pair t o ≡ false)
    × ((i : ℕ)
        → i < words_len store.heap
        → (i < word_index o) ⊎ (word_index o + (meta_len + 2) ≤ i)
        → at_index t.heap i ≡ at_index store.heap i)
spair_lem_example =
    spair_lem store 8 56 store-IsReady (omega arith) (omega arith) (omega arith)
      (omega (arith, store-meta_extra))

abbrev both : List Obj
both = 56 ∷ 8 ∷ []

link_of_56 : chain_next store 56 ≡ 8
unfolding chain_next word
link_of_56 = refl

link_of_8 : chain_next store 8 ≡ nil
unfolding chain_next word
link_of_8 = refl

short : {o : Obj} → IsPlace store.heap o 2 → IsPlace store.heap o 0
short p = record { ne_nil = p.ne_nil; aligned = p.aligned; inside = omega (arith, p.inside) }

store-Chain : Chain store store.heap_chain both
store-Chain = (
  refl,
  short place_at_56,
  (inr (omega arith), tt),
  (link_of_56, short place_at_8, tt, link_of_8),
)

sweep-Swept_example :
    (t : Objects) × (sweep 2 store ≡ some (t, dead (is_marked store) both))
    × IsValid t.heap
    × (words_len t.heap ≡ words_len store.heap)
    × Chain t t.heap_chain (kept_onto (is_marked store) both [])
    × (t.live ≡ store.live - dead (is_marked store) both)
    × All (λ o. flags_word t o ≡ swept_flags (is_marked store) o (flags_word store o)) both
    × (t.free ≡ released (is_marked store) (sweep_key store) both store.free)
    × ((i : ℕ)
        → All (λ o. (i < word_index o) ⊎ (word_index o + meta_len ≤ i)) both
        → at_index t.heap i ≡ at_index store.heap i)
sweep-Swept_example =
    sweep-Swept both 2 store store-IsValid refl store-Chain (omega arith) (omega arith)
      (omega arith)

count_loop-length_example : count_loop 2 store store.heap_chain ≡ some 2
count_loop-length_example =
    count_loop-length both 2 store store.heap_chain store-Chain (omega arith)
