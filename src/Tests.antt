-- ===== src/Tests.antt =====
-- Concrete arenas and object stores, and each theorem applied to one of them.
pub mod Words
pub mod Arena
pub mod Store
pub mod Check
pub mod Frames
pub mod Instructions
pub mod Collecting
pub mod Engines
pub mod Evaluator
pub mod Reading
use x_engine_rust.Prelude.{
  ℕ, zero, suc, ◌+◌, ◌-◌, ◌*◌, ◌/◌, ◌%◌, ◌^◌, ◌≤◌, ◌<◌, bit_and, bit_or, bit_xor, min, max, ◌≡◌,
  refl, sym, ap, ap₂, ◌∙◌, ◌≢◌, ◌↔◌, ◌⊎◌, inl, inr, Bool, true, false, not, ◌&&◌, ◌||◌, Option,
  none, some, List, [], ◌∷◌, ◌++◌, map, reverse, arith, ltb, leb, ◌==◌, if◌then◌else◌, ◌>>=◌,
  ltb→lt, lt→ltb, le→ltb_false, ltb_false→le, le→leb, ==_iff, ==_refl, ne→==_false, ==_false→ne,
  Bool-cases, Option-cases, length, get_or, set, replicate, length-append, length-set,
  length-replicate, get_or-set_self, get_or-set_ne, get_or-beyond, get_or-append_left,
  get_or-append_right,
}
use x_engine_rust.Obj.{
  Obj, Addr, Word, Flags, EnvId, IsWord, bit_not, word_bytes, nil, is_nil, as_i64, from_i64, offset,
  plus, word_index, byte_in_word, word_base,
}
use x_engine_rust.Heap.{Heap}
use x_engine_rust.Heap.Words.{
  IsValid, words_len-set_word, capacity-set_word, word-IsWord, set_word-IsValid,
  append_word-IsValid, word-set_word, word_beyond, set_word_beyond, append-bounded, single-bounded,
}
use x_engine_rust.Objects.{
  Objects, FreeList, bucket, set_bucket, with_heap, header_slot, flags_word, set_flags_word,
  kind_bits, flags, is, type_of_word, set_type_word, slot, data_word, set_data, data_len,
  chain_next, set_chain_next, first, rest, meta_stamped, meta_slot, meta_i, set_meta_i, stamp_meta,
  meta_extra, free_key, take_free, write_header, meta_bits, clear_data, reuse, push_zeros, grow,
  lay_out, count_alloc, slot_heap, slot_type, slot_flags, slot_len, meta_len, flag_meta_bit,
  flag_meta_shift, flag_magic_bit,
}
use x_engine_rust.Objects.FreeList.{All}
use x_engine_rust.Collect.{mark_bit}

pub All-bounded : (xs : List ℕ) → All IsWord xs → (i : ℕ) → IsWord (get_or xs i 0)
All-bounded [] a i = omega arith
All-bounded (x ∷ xs) (w, a) zero = w
All-bounded (x ∷ xs) (w, a) (suc i) = All-bounded xs a i

-- An arena of four words.
abbrev pub four_words : Heap
four_words = record {
  words = 0 ∷ 0x1122334455667788 ∷ 7 ∷ 0 ∷ [];
  allocations = 0;
  capacity = 1024;
}

pub four_words-IsValid : IsValid four_words
four_words-IsValid = record {
  reserved = omega arith;
  within = omega arith;
  small = omega arith;
  bounded =
      All-bounded four_words.words (omega arith, (omega arith, (omega arith, (omega arith, tt))));
}

-- A list pair of 56 and nil at 8 that is marked, and at 56 a pair of 8 and nil without a mark whose
-- link is 8.
abbrev pub store_words : List Word
store_words =
    0
    ∷ 0
    ∷ 0
    ∷ (mark_bit + flag_magic_bit + 0x0100)
    ∷ 2
    ∷ 56
    ∷ 0
    ∷ 8
    ∷ 0
    ∷ (flag_magic_bit + 0x0100)
    ∷ 2
    ∷ 8
    ∷ 0
    ∷ []

abbrev pub store : Objects
store = record {
  heap = record { words = store_words; allocations = 2; capacity = 1024 };
  false_obj = 0;
  true_obj = 0;
  base = 0;
  meta_node = 0;
  spair_marker = 8;
  satom_marker = 8;
  heap_chain = 56;
  free = [];
  live = 2;
  poison_freed = false;
  freed_kind = [];
  symbols = [];
  shared_symbols = [];
  state_nodes = [];
  line_node = 0;
  int_read = 0;
  int_states = [];
  kind_handles = [];
  other_kind_handles = [];
  eval_handlers = [];
  callable_call_handler = 0;
  list_call_handler = 0;
  base_label_atom = 0;
  entry_words = [];
}

pub store-IsValid : IsValid store.heap
store-IsValid = record {
  reserved = omega arith;
  within = omega arith;
  small = omega arith;
  bounded = All-bounded store_words (
    omega arith,
    (
      omega arith,
      (
        omega arith,
        (
          omega arith,
          (
            omega arith,
            (
              omega arith,
              (
                omega arith,
                (
                  omega arith,
                  (omega arith, (omega arith, (omega arith, (omega arith, (omega arith, tt))))),
                ),
              ),
            ),
          ),
        ),
      ),
    ),
  );
}
