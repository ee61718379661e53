-- ===== src/Value/Pairs.antt =====
-- src/value/pair.rs: what `spair` makes.
use x_engine_rust.Prelude.{
  ℕ, ◌+◌, ◌≤◌, ◌<◌, ◌≡◌, refl, sym, ap, ◌∙◌, ◌≢◌, ◌⊎◌, inl, inr, true, false, some, arith, ◌==◌,
  ne→==_false,
}
use x_engine_rust.Obj.{Obj, IsWord, nil, word_index}
use x_engine_rust.Heap.{note_allocation, words_len, word}
use x_engine_rust.Heap.Words.{IsValid, words_len-set_word, set_word-IsValid}
use x_engine_rust.Objects.{
  Objects, kind_bits, flags, is, slot, data_word, set_data, first, rest, meta_extra, count_alloc,
  meta_len,
}
use x_engine_rust.Objects.Header.{
  not_nil, IsPlace, IsPlace_grow, at_index, data_word-set_data, at_index-set_word,
  flags_word-at_index,
}
use x_engine_rust.Objects.FreeList.{IsReady, IsFreeList-grow, Origin, lay_out_outcome}
use x_engine_rust.Objects.Kinds.{flag_spair, flag_pair}
use x_engine_rust.Value.{spair, is_spair, is_pair}

pub note_allocation-words_len : (s : Objects) → words_len (count_alloc s).heap ≡ words_len s.heap
unfolding count_alloc note_allocation
note_allocation-words_len s = refl

pub count_alloc-IsReady : (s : Objects) → IsReady s → IsReady (count_alloc s)
unfolding count_alloc note_allocation
count_alloc-IsReady s r = record {
  valid = record {
    reserved = r.valid.reserved;
    within = r.valid.within;
    small = r.valid.small;
    bounded = r.valid.bounded;
  };
  chained = r.chained;
  freed = IsFreeList-grow r.freed refl (omega arith);
  reuses = r.reuses;
}

pub count_alloc-meta_extra : (s : Objects) → meta_extra (count_alloc s) ≡ meta_extra s
unfolding count_alloc note_allocation meta_extra first data_word word
count_alloc-meta_extra s = refl

pub is_of :
    (t : Objects) {o : Obj} {k : ℕ} → o ≢ nil → flags t o ≡ k → (f : ℕ) → is t o f ≡ (k == f)
unfolding is
is_of t ne e f = rw (not_nil ne, e) refl

-- A pair's two data words after both have been set.
abbrev filled : Objects → Obj → Obj → Obj → Objects
filled t o a b = set_data (set_data t o 0 a) o 1 b

record Filled (t : Objects) (o a b : Obj) : Type 0 where
  valid : IsValid (filled t o a b).heap
  place : IsPlace (filled t o a b).heap o 2
  first_read : first (filled t o a b) o ≡ a
  rest_read : rest (filled t o a b) o ≡ b
  flags_kept : flags (filled t o a b) o ≡ flags t o
  kept :
      (i : ℕ)
      → (i < word_index o) ⊎ (word_index o + (meta_len + 2) ≤ i)
      → at_index (filled t o a b).heap i ≡ at_index t.heap i

module _ (t : Objects) (ok : IsValid t.heap) {o : Obj} {n : ℕ} (p : IsPlace t.heap o n) (i v : ℕ)
    (small : i < n) (w : IsWord v) where
  pub set-IsValid : IsValid (set_data t o i v).heap
  unfolding set_data
  set-IsValid = set_word-IsValid ok _ v w

  pub set_place : IsPlace (set_data t o i v).heap o n
  unfolding set_data
  set_place = IsPlace_grow p (omega (arith, words_len-set_word t.heap (slot o i) v))

  pub set_kept :
      (k : ℕ)
      → k ≢ word_index o + (meta_len + i)
      → at_index (set_data t o i v).heap k ≡ at_index t.heap k
  unfolding set_data
  set_kept k ne =
      at_index-set_word ok p (meta_len + i) v k (omega arith)
      ∙ rw (ne→==_false k (word_index o + (meta_len + i)) ne) refl

fill :
    (t : Objects)
    → IsValid t.heap
    → {o : Obj} → IsPlace t.heap o 2
    → (a b : Obj) → IsWord a
    → IsWord b
    → Filled t o a b
fill t ok {o} p a b wa wb =
    let v1 = set-IsValid t ok p 0 a (omega arith) wa in
    let p1 = set_place t ok p 0 a (omega arith) wa in
    let t1 = set_data t o 0 a in
    let v2 = set-IsValid t1 v1 p1 1 b (omega arith) wb in
    let p2 = set_place t1 v1 p1 1 b (omega arith) wb in
    record {
      valid = v2;
      place = p2;
      first_read =
          unfold first in
          (data_word-set_data t1 v1 p1 1 0 b wb (omega arith) (omega arith)
            ∙ data_word-set_data t ok p 0 0 a wa (omega arith) (omega arith));
      rest_read = unfold rest in data_word-set_data t1 v1 p1 1 1 b wb (omega arith) (omega arith);
      flags_kept =
          unfold flags in
          ap kind_bits (
            flags_word-at_index (filled t o a b) v2 p2
            ∙ set_kept t1 v1 p1 1 b (omega arith) wb (word_index o + 2) (λ z. omega arith)
            ∙ set_kept t ok p 0 a (omega arith) wa (word_index o + 2) (λ z. omega arith)
            ∙ sym (flags_word-at_index t ok p));
      kept = λ i out.
          set_kept t1 v1 p1 1 b (omega arith) wb i
            (λ z. elim out [ inl x ↦ omega arith | inr x ↦ omega arith ])
          ∙ set_kept t ok p 0 a (omega arith) wa i
              (λ z. elim out [ inl x ↦ omega arith | inr x ↦ omega arith ]);
    }

filled-words_len :
    (t : Objects) (o : Obj) (a b : ℕ) → words_len (filled t o a b).heap ≡ words_len t.heap
unfolding set_data
filled-words_len t o a b =
    words_len-set_word (set_data t o 0 a).heap (slot o 1) b ∙ words_len-set_word t.heap (slot o 0) a

-- What `spair` answers, with where the pair comes from.
pub spair_outcome :
    (s : Objects) (a b : Obj)
    → IsReady s
    → IsWord s.spair_marker
    → IsWord a
    → IsWord b
    → words_len s.heap + (meta_extra s + (meta_len + 2)) ≤ s.heap.capacity
    → (o : Obj) × (t : Objects) × (spair s a b ≡ some (o, t))
      × IsValid t.heap
      × IsPlace t.heap o 2
      × (t.heap_chain ≡ o)
      × (first t o ≡ a)
      × (rest t o ≡ b)
      × (is_spair t o ≡ true)
      × (is_pair t o ≡ false)
      × ((i : ℕ)
          → i < words_len s.heap
          → (i < word_index o) ⊎ (word_index o + (meta_len + 2) ≤ i)
          → at_index t.heap i ≡ at_index s.heap i)
      × Origin (count_alloc s) 2 o
      × (t.state_nodes ≡ s.state_nodes)
      × (words_len s.heap ≤ words_len t.heap)
unfolding spair count_alloc note_allocation is_spair is is_pair
spair_outcome s a b r wm wa wb room =
    let (o, t, q, al, ready, from) =
      lay_out_outcome (count_alloc s) s.spair_marker flag_spair 2 (count_alloc-IsReady s r)
        (record { low = omega arith; high = omega arith }) wm
        (omega (arith, count_alloc-meta_extra s)) in
    let f = fill t al.valid al.object.place a b wa wb in
    (
      o,
      filled t o a b,
      rw q refl,
      f.valid,
      f.place,
      (unfold set_data in al.chain),
      f.first_read,
      f.rest_read,
      is_of (filled t o a b) al.object.place.ne_nil (f.flags_kept ∙ al.object.kind) flag_spair
          ∙ refl,
      is_of (filled t o a b) al.object.place.ne_nil (f.flags_kept ∙ al.object.kind) flag_pair
          ∙ refl,
      λ i inside out. f.kept i out ∙ al.kept i inside out,
      from,
      (unfold set_data in ap (λ (v : Objects). v.state_nodes) al.others),
      omega (arith, al.longer, filled-words_len t o a b),
    )

-- With a ready state, a marker and two objects that are words, and room in the reservation,
-- `spair` answers a pair whose two halves are the objects, which is a structural pair and no list
-- pair and heads the chain, in a valid arena; of the words that were there only those of the pair
-- may have changed.
pub spair_lem :
    (s : Objects) (a b : Obj)
    → IsReady s
    → IsWord s.spair_marker
    → IsWord a
    → IsWord b
    → words_len s.heap + (meta_extra s + (meta_len + 2)) ≤ s.heap.capacity
    → (o : Obj) × (t : Objects) × (spair s a b ≡ some (o, t))
      × IsValid t.heap
      × IsPlace t.heap o 2
      × (t.heap_chain ≡ o)
      × (first t o ≡ a)
      × (rest t o ≡ b)
      × (is_spair t o ≡ true)
      × (is_pair t o ≡ false)
      × ((i : ℕ)
          → i < words_len s.heap
          → (i < word_index o) ⊎ (word_index o + (meta_len + 2) ≤ i)
          → at_index t.heap i ≡ at_index s.heap i)
spair_lem s a b r wm wa wb room =
    let (o, t, q, valid, place, chain, one, two, spair_is, pair_not, kept, from, nodes, longer) =
      spair_outcome s a b r wm wa wb room in
    (o, t, q, valid, place, chain, one, two, spair_is, pair_not, kept)
