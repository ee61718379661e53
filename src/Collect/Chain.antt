-- ===== src/Collect/Chain.antt =====
-- src/collect.rs: the allocation chain as a list of objects, and what one step of the sweep changes.
use x_engine_rust.Prelude.{
  ℕ, ◌+◌, ◌-◌, ◌*◌, ◌/◌, ◌%◌, ◌^◌, ◌≤◌, ◌<◌, bit_and, ◌≡◌, refl, sym, ap, ◌∙◌, ◌⊎◌, inl, inr, not,
  List, [], ◌∷◌, arith, leb, ◌==◌, ==_iff, ==_refl, ne→==_false,
}
use x_engine_rust.Prelude.Bits.{bit_and_block, bit_and_mask, bit_and_ones, bit_and-zero}
use x_engine_rust.Obj.{Obj, IsWord, bit_not, nil, word_index}
use x_engine_rust.Heap.{words_len, set_word}
use x_engine_rust.Heap.Words.{IsValid, words_len-set_word, set_word-IsValid}
use x_engine_rust.Objects.{
  Objects, with_heap, header_slot, flags_word, set_flags_word, chain_next, set_chain_next, meta_len,
}
use x_engine_rust.Objects.Header.{
  at_index, IsPlace, IsPlace_grow, at_index-set_word, chain_next-at_index, flags_word-at_index,
}
use x_engine_rust.Objects.FreeList.{All}
use x_engine_rust.Collect.{mark_bit}

-- Two headers that share no word.
abbrev pub Apart : Obj → Obj → Type 0
Apart o p = (word_index o + meta_len ≤ word_index p) ⊎ (word_index p + meta_len ≤ word_index o)

-- From `at` the heap links lead through the objects `xs`, whose headers are apart, to nil.
abbrev pub Chain : Objects → Obj → List Obj → Type 0
Chain s at [] = at ≡ nil
Chain s at (o ∷ xs) = (at ≡ o) × IsPlace s.heap o 0 × All (Apart o) xs × Chain s (chain_next s o) xs

-- `t` differs from `s` at most in the header words of `o` and in the free list.
pub record Touches (s : Objects) (o : Obj) (t : Objects) : Type 0 where
  pub valid : IsValid t.heap
  pub size : words_len t.heap ≡ words_len s.heap
  pub others : t ≡ record s { heap = t.heap; free = t.free }
  pub kept :
      (i : ℕ)
      → (i < word_index o) ⊎ (word_index o + meta_len ≤ i)
      → at_index t.heap i ≡ at_index s.heap i
  pub length_kept : at_index t.heap (word_index o + 3) ≡ at_index s.heap (word_index o + 3)

module _ {s t : Objects} {o : Obj} (ok : IsValid s.heap) (d : Touches s o t) where
  pub Touches-word :
      {p : Obj}
      → IsPlace s.heap p 0
      → Apart o p
      → (k : ℕ) → k < meta_len
      → at_index t.heap (word_index p + k) ≡ at_index s.heap (word_index p + k)
  Touches-word {p} q a k small =
      d.kept (word_index p + k) (elim a [ inl x ↦ inr (omega arith) | inr x ↦ inl (omega arith) ])

  pub Touches-place : {p : Obj} → IsPlace s.heap p 0 → IsPlace t.heap p 0
  Touches-place q = IsPlace_grow q (omega (arith, d.size))

  pub Touches-chain_next :
      {p : Obj} → IsPlace s.heap p 0 → Apart o p → chain_next t p ≡ chain_next s p
  Touches-chain_next {p} q a =
      chain_next-at_index t d.valid (Touches-place q)
      ∙ ap (at_index t.heap) (let z : word_index p ≡ word_index p + 0 = omega arith in z)
      ∙ Touches-word q a 0 (omega arith)
      ∙ ap (at_index s.heap) (let z : word_index p + 0 ≡ word_index p = omega arith in z)
      ∙ sym (chain_next-at_index s ok q)

  pub Touches-flags_word :
      {p : Obj} → IsPlace s.heap p 0 → Apart o p → flags_word t p ≡ flags_word s p
  Touches-flags_word q a =
      flags_word-at_index t d.valid (Touches-place q)
      ∙ Touches-word q a 2 (omega arith)
      ∙ sym (flags_word-at_index s ok q)

  pub Touches-Chain : (xs : List Obj) (at : Obj) → All (Apart o) xs → Chain s at xs → Chain t at xs
  Touches-Chain [] at a c = c
  Touches-Chain (p ∷ xs) at (a, others) (e, q, apart, c) = (
    e,
    Touches-place q,
    apart,
    rw (Touches-chain_next q a) (Touches-Chain xs (chain_next s p) others c),
  )

-- The mark is the top bit of the flags word.
pub marked_iff : (w : ℕ) → IsWord w → not (bit_and w mark_bit == 0) ≡ leb mark_bit w
marked_iff w h =
    let split : w ≡ w / 2 ^ 63 * 2 ^ 63 + w % 2 ^ 63 = omega arith in
    let low : bit_and (w % 2 ^ 63) 0 ≡ 0 = bit_and-zero (w % 2 ^ 63) in
    let top : bit_and (w / 2 ^ 63) 1 ≡ w / 2 ^ 63 = bit_and_ones 1 (w / 2 ^ 63) (omega arith) in
    let field : bit_and w mark_bit ≡ w / 2 ^ 63 * 2 ^ 63 =
      ap (λ t. bit_and t (1 * 2 ^ 63 + 0)) split
      ∙ bit_and_block 63 (w / 2 ^ 63) 1 (w % 2 ^ 63) 0 (omega arith) (omega arith)
      ∙ rw (low, top) (omega arith) in
    rw field (ground arith)

pub unmarked_word : (w : ℕ) → bit_and w (bit_not mark_bit) ≡ w % 2 ^ 63
unmarked_word w =
    let split : w ≡ w / 2 ^ 63 * 2 ^ 63 + w % 2 ^ 63 = omega arith in
    ap (λ t. bit_and t (2 ^ 63 - 1)) split ∙ bit_and_mask 63 (w / 2 ^ 63) (w % 2 ^ 63) (omega arith)

module _ (s : Objects) (ok : IsValid s.heap) {o : Obj} (p : IsPlace s.heap o 0) where
  pub flags_word-IsWord : IsWord (flags_word s o)
  flags_word-IsWord = rw (flags_word-at_index s ok p) (ok.bounded (word_index o + 2))

  write_slot-Touches :
      (k v : ℕ) → k < 3 → IsWord v → Touches s o (with_heap s (set_word s.heap (header_slot o k) v))
  write_slot-Touches k v small w = record {
    valid = set_word-IsValid ok (header_slot o k) v w;
    size = words_len-set_word s.heap (header_slot o k) v;
    others = refl;
    kept = λ i out.
        at_index-set_word ok p k v i (omega arith)
        ∙ rw (
            ne→==_false i (word_index o + k)
              (λ e. elim out [ inl x ↦ omega arith | inr x ↦ omega arith ]));
    length_kept =
        at_index-set_word ok p k v (word_index o + 3) (omega arith)
        ∙ rw (ne→==_false (word_index o + 3) (word_index o + k) (omega arith));
  }

  pub set_flags_word-Touches : (v : ℕ) → IsWord v → Touches s o (set_flags_word s o v)
  unfolding set_flags_word
  set_flags_word-Touches v w = write_slot-Touches 2 v (omega arith) w

  pub flags_word-set_flags_word : (v : ℕ) → IsWord v → flags_word (set_flags_word s o v) o ≡ v
  unfolding set_flags_word
  flags_word-set_flags_word v w =
      let d = set_flags_word-Touches v w in
      flags_word-at_index (set_flags_word s o v) d.valid (Touches-place ok d p)
      ∙ (at_index-set_word ok p 2 v (word_index o + 2) (omega arith))
      ∙ rw (==_refl (word_index o + 2))

  pub set_chain_next-Touches : (v : ℕ) → IsWord v → Touches s o (set_chain_next s o v)
  unfolding set_chain_next
  set_chain_next-Touches v w = write_slot-Touches 0 v (omega arith) w

  pub chain_next-set_chain_next : (v : ℕ) → IsWord v → chain_next (set_chain_next s o v) o ≡ v
  unfolding set_chain_next
  chain_next-set_chain_next v w =
      let d = set_chain_next-Touches v w in
      chain_next-at_index (set_chain_next s o v) d.valid (Touches-place ok d p)
      ∙ (at_index-set_word ok p 0 v (word_index o) (omega arith))
      ∙ rw ((==_iff (word_index o) (word_index o + 0)).1 (omega arith))

  pub flags_word-set_chain_next :
      (v : ℕ) → IsWord v → flags_word (set_chain_next s o v) o ≡ flags_word s o
  unfolding set_chain_next
  flags_word-set_chain_next v w =
      let d = set_chain_next-Touches v w in
      flags_word-at_index (set_chain_next s o v) d.valid (Touches-place ok d p)
      ∙ (at_index-set_word ok p 0 v (word_index o + 2) (omega arith))
      ∙ (rw (ne→==_false (word_index o + 2) (word_index o + 0) (omega arith)))
      ∙ sym (flags_word-at_index s ok p)

pub Touches-trans : {s t u : Objects} {o : Obj} → Touches s o t → Touches t o u → Touches s o u
Touches-trans {t} {u} a b = record {
  valid = b.valid;
  size = b.size ∙ a.size;
  others = b.others ∙ ap (λ (r : Objects). record r { heap = u.heap; free = u.free }) a.others;
  kept = λ i out. b.kept i out ∙ a.kept i out;
  length_kept = b.length_kept ∙ a.length_kept;
}
