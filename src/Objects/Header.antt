-- ===== src/Objects/Header.antt =====
-- src/objects.rs: the slots of an object as words of the arena, by index.
use x_engine_rust.Prelude.{
  ℕ, ◌+◌, ◌*◌, ◌/◌, ◌≤◌, ◌<◌, ◌≡◌, sym, ap, ◌∙◌, ◌≢◌, inl, inr, true, false, arith, ◌==◌,
  if◌then◌else◌, ==_iff, ne→==_false, ==_false→ne, Bool-cases, get_or,
}
use x_engine_rust.Obj.{Obj, Word, IsWord, nil, is_nil, word_index, byte_in_word}
use x_engine_rust.Heap.{Heap, words_len, word, set_word}
use x_engine_rust.Heap.Words.{IsValid, words_len-set_word, set_word-IsValid, word-set_word}
use x_engine_rust.Objects.{
  Objects, header_slot, flags_word, type_of_word, slot, data_word, set_data, data_len, chain_next,
  meta_len,
}

-- Word `i` of the arena.
abbrev pub at_index : Heap → ℕ → Word
at_index h i = get_or h.words i 0

-- `o` is the aligned address of a header that lies in the arena with `n` data words.
pub record IsPlace (h : Heap) (o : Obj) (n : ℕ) : Type 0 where
  pub ne_nil : o ≢ nil
  pub aligned : byte_in_word o ≡ 0
  pub inside : word_index o + (meta_len + n) ≤ words_len h

module _ {h : Heap} (ok : IsValid h) {o : Obj} {n : ℕ} (p : IsPlace h o n) where
  pub slot_index : (k : ℕ) → k < meta_len + n → word_index (header_slot o k) ≡ word_index o + k
  slot_index k small = omega (arith, ok.within, ok.small, p.inside)

  -- A write of slot `k` changes word `k` of the object and no other.
  pub at_index-set_word :
      (k v i : ℕ)
      → k < meta_len + n
      → at_index (set_word h (header_slot o k) v) i
        ≡ (if i == word_index o + k then v else at_index h i)
  at_index-set_word k v i small =
      let e = slot_index k small in
      let w : word (set_word h (header_slot o k) v) (i * 8)
          ≡ (if i * 8 / 8 == header_slot o k / 8 then v else word h (i * 8)) =
        word-set_word h (header_slot o k) (i * 8) v (omega (arith, e, p.inside)) in
      let back : i * 8 / 8 ≡ i = omega arith in unfold word in rw (← e) (rw back at w)

pub word-at_index :
    {h : Heap}
    → IsValid h
    → {o : Obj} {n : ℕ} → IsPlace h o n
    → (k : ℕ) → k < meta_len + n
    → word h (header_slot o k) ≡ at_index h (word_index o + k)
unfolding word
word-at_index {h} ok p k small = ap (at_index h) (slot_index ok p k small)

pub not_nil : {o : Obj} → o ≢ nil → is_nil o ≡ false
not_nil {o} ne = ne→==_false o 0 ne

module _ (s : Objects) (ok : IsValid s.heap) {o : Obj} {n : ℕ} (p : IsPlace s.heap o n) where
  pub chain_next-at_index : chain_next s o ≡ at_index s.heap (word_index o)
  unfolding chain_next
  chain_next-at_index = word-at_index ok p 0 (omega arith) ∙ ap (at_index s.heap) (omega arith)

  pub type_of_word-at_index : type_of_word s o ≡ at_index s.heap (word_index o + 1)
  unfolding type_of_word
  type_of_word-at_index = rw (not_nil p.ne_nil) (word-at_index ok p 1 (omega arith))

  pub flags_word-at_index : flags_word s o ≡ at_index s.heap (word_index o + 2)
  unfolding flags_word
  flags_word-at_index = word-at_index ok p 2 (omega arith)

  pub data_len-at_index : data_len s o ≡ at_index s.heap (word_index o + 3)
  unfolding data_len
  data_len-at_index = word-at_index ok p 3 (omega arith)

  pub data_word-at_index :
      (i : ℕ) → i < n → data_word s o i ≡ at_index s.heap (word_index o + (meta_len + i))
  unfolding data_word
  data_word-at_index i small =
      rw (not_nil p.ne_nil) (word-at_index ok p (meta_len + i) (omega arith))

-- A place stays one in an arena of the same length or longer.
pub IsPlace_grow :
    {h g : Heap} {o : Obj} {n : ℕ} → IsPlace h o n → words_len h ≤ words_len g → IsPlace g o n
IsPlace_grow p le = record {
  ne_nil = p.ne_nil;
  aligned = p.aligned;
  inside = omega (arith, p.inside);
}

-- In a valid arena a word that is set in a data slot of an object reads back, and every other data
-- slot of the object is as it was.
pub data_word-set_data :
    (s : Objects)
    → IsValid s.heap
    → {o : Obj} {n : ℕ} → IsPlace s.heap o n
    → (i j v : ℕ) → IsWord v
    → i < n
    → j < n
    → data_word (set_data s o i v) o j ≡ (if j == i then v else data_word s o j)
data_word-set_data s ok {o} {n} p i j v w hi hj =
    data_word-at_index (set_data s o i v) ok' p' j hj
    ∙ unfold set_data in
      at_index-set_word ok p (meta_len + i) v (word_index o + (meta_len + j)) (omega arith)
      ∙ elim (Bool-cases (j == i)) [
        | inl e ↦
            let at : (word_index o + (meta_len + j) == word_index o + (meta_len + i)) ≡ true =
              (==_iff _ _).1 (ap (λ k. word_index o + (meta_len + k)) ((==_iff j i).0 e)) in
            rw (at, e)
        | inr e ↦
            let off : (word_index o + (meta_len + j) == word_index o + (meta_len + i)) ≡ false =
              ne→==_false _ _ (λ z. ==_false→ne j i e (omega arith)) in
            rw (off, e) (sym (data_word-at_index s ok p j hj))
      ]
  where
    ok' : IsValid (set_data s o i v).heap
    ok' = unfold set_data in set_word-IsValid ok _ v w

    p' : IsPlace (set_data s o i v).heap o n
    p' = IsPlace_grow p (unfold set_data in omega (arith, words_len-set_word s.heap (slot o i) v))
