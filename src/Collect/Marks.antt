-- ===== src/Collect/Marks.antt =====
-- src/collect.rs: a state that differs from another in mark bits only, and what still reads alike.
use x_engine_rust.Prelude.{
  ℕ, ◌+◌, ◌*◌, ◌/◌, ◌%◌, ◌^◌, ◌≤◌, ◌<◌, bit_and, bit_or, ◌≡◌, refl, sym, ap, ◌∙◌, ◌≢◌, ◌⊎◌, inl,
  inr, true, false, ◌||◌, List, arith, leb, ◌==◌, if◌then◌else◌, le→leb, ==_iff, Bool-cases, length,
}
use mathlib.Core.List.{Memᴰ}
use x_engine_rust.Prelude.Bits.{bit_or_fields}
use x_engine_rust.Obj.{Obj, Word, IsWord, word_index}
use x_engine_rust.Heap.{Heap, words_len, word, set_word}
use x_engine_rust.Heap.Words.{IsValid, words_len-set_word, set_word-IsValid}
use x_engine_rust.Objects.{
  Objects, with_heap, header_slot, flags_word, set_flags_word, kind_bits, type_of_word, data_word,
  data_len, chain_next, meta_len, flag_magic_bit,
}
use x_engine_rust.Objects.Header.{
  at_index, IsPlace, IsPlace_grow, at_index-set_word, flags_word-at_index, data_len-at_index,
  type_of_word-at_index, data_word-at_index, chain_next-at_index,
}
use x_engine_rust.Collect.{mark_bit, is_marked, set_mark, children}
use x_engine_rust.Collect.Chain.{marked_iff, flags_word-IsWord}
use x_engine_rust.Collect.Edges.{
  span, is_object, edges, plausible_same, children_same, kind_bits_low, magic_low,
}

-- Two objects, header and data, that share no word.
abbrev pub Disjoint : Objects → Obj → Obj → Type 0
Disjoint s o p =
    (word_index o + (meta_len + data_len s o) ≤ word_index p)
    ⊎ (word_index p + (meta_len + data_len s p) ≤ word_index o)

-- The objects `objs` as the mark pass needs them: each lies in the arena with the data that its
-- kind takes, no two share a word, none is marked, and what an object leads to is, if it is an
-- object, one of them.
pub record IsTraced (s : Objects) (objs : List Obj) : Type 0 where
  pub valid : IsValid s.heap
  pub place : {o : Obj} → Memᴰ o objs → IsPlace s.heap o (data_len s o)
  pub sized :
      {o : Obj} → Memᴰ o objs → span (kind_bits (flags_word s o)) (data_len s o) ≤ data_len s o
  pub apart : {o p : Obj} → Memᴰ o objs → Memᴰ p objs → (o ≡ p) ⊎ Disjoint s o p
  pub unmarked : {o : Obj} → Memᴰ o objs → is_marked s o ≡ false
  pub closed : {o w : Obj} → Memᴰ o objs → Memᴰ w (edges s o) → is_object s w ≡ true → Memᴰ w objs

-- `t` is `s` with some of the objects marked.
pub record Marks (s : Objects) (objs : List Obj) (t : Objects) : Type 0 where
  pub others : t ≡ with_heap s t.heap
  pub valid : IsValid t.heap
  pub size : words_len t.heap ≡ words_len s.heap
  pub low : (i : ℕ) → at_index t.heap i % 2 ^ 63 ≡ at_index s.heap i % 2 ^ 63
  pub kept :
      (i : ℕ)
      → (at_index t.heap i ≡ at_index s.heap i) ⊎ ((o : Obj) × Memᴰ o objs × (i ≡ word_index o + 2))

pub Marks-refl : {s : Objects} {objs : List Obj} → IsTraced s objs → Marks s objs s
Marks-refl a = record {
  others = refl;
  valid = a.valid;
  size = refl;
  low = λ i. refl;
  kept = λ i. inl refl;
}

module _ {s t : Objects} {objs : List Obj} (a : IsTraced s objs) (m : Marks s objs t) where
  pub Marks-place : {o : Obj} → Memᴰ o objs → IsPlace t.heap o (data_len s o)
  Marks-place h = IsPlace_grow (a.place h) (omega (arith, m.size))

  -- A word of an object other than its flags word is the same.
  pub Marks-word :
      {o : Obj}
      → Memᴰ o objs
      → (k : ℕ) → k < meta_len + data_len s o
      → k ≢ 2
      → at_index t.heap (word_index o + k) ≡ at_index s.heap (word_index o + k)
  Marks-word {o} h k small ne = elim (m.kept (word_index o + k)) [
    | inl e ↦ e
    | inr (p, hp, e) ↦ elim (a.apart hp h) [
      | inl same ↦
          let at : word_index o ≡ word_index p = ap word_index (sym same) in
          absurd (ne (omega arith))
      | inr (inl before) ↦ absurd (omega arith)
      | inr (inr after) ↦ absurd (omega arith)
    ]
  ]

  pub Marks-data_len : {o : Obj} → Memᴰ o objs → data_len t o ≡ data_len s o
  Marks-data_len h =
      data_len-at_index t m.valid (Marks-place h)
      ∙ Marks-word h 3 (omega arith) (λ e. omega arith)
      ∙ sym (data_len-at_index s a.valid (a.place h))

  pub Marks-chain_next : {o : Obj} → Memᴰ o objs → chain_next t o ≡ chain_next s o
  Marks-chain_next {o} h =
      let start : word_index o ≡ word_index o + 0 = omega arith in
      chain_next-at_index t m.valid (Marks-place h)
      ∙ ap (at_index t.heap) start
      ∙ Marks-word h 0 (omega arith) (λ e. omega arith)
      ∙ ap (at_index s.heap) (sym start)
      ∙ sym (chain_next-at_index s a.valid (a.place h))

  pub Marks-type_of_word : {o : Obj} → Memᴰ o objs → type_of_word t o ≡ type_of_word s o
  Marks-type_of_word h =
      type_of_word-at_index t m.valid (Marks-place h)
      ∙ Marks-word h 1 (omega arith) (λ e. omega arith)
      ∙ sym (type_of_word-at_index s a.valid (a.place h))

  pub Marks-data_word :
      {o : Obj} → Memᴰ o objs → (i : ℕ) → i < data_len s o → data_word t o i ≡ data_word s o i
  Marks-data_word h i small =
      data_word-at_index t m.valid (Marks-place h) i small
      ∙ Marks-word h (meta_len + i) (omega arith) (λ e. omega arith)
      ∙ sym (data_word-at_index s a.valid (a.place h) i small)

  pub Marks-flags_word : (w : Obj) → flags_word t w % 2 ^ 63 ≡ flags_word s w % 2 ^ 63
  unfolding flags_word word
  Marks-flags_word w = m.low (header_slot w 2 / 8)

  pub Marks-kind_bits : (w : Obj) → kind_bits (flags_word t w) ≡ kind_bits (flags_word s w)
  Marks-kind_bits w =
      kind_bits_low (flags_word t w)
      ∙ ap kind_bits (Marks-flags_word w)
      ∙ sym (kind_bits_low (flags_word s w))

  pub Marks-is_object : (w : Obj) → is_object t w ≡ is_object s w
  unfolding is_object
  Marks-is_object w =
      let magic : bit_and (flags_word t w) flag_magic_bit
          ≡ bit_and (flags_word s w) flag_magic_bit =
        magic_low (flags_word t w)
        ∙ ap (λ v. bit_and v flag_magic_bit) (Marks-flags_word w)
        ∙ sym (magic_low (flags_word s w)) in
      rw (plausible_same s t w m.size, magic) refl

  pub Marks-children :
      {o : Obj}
      → Memᴰ o objs
      → (children t o (kind_bits (flags_word t o)) (data_len t o)
          ≡ children s o (kind_bits (flags_word s o)) (data_len s o))
        × (length (children s o (kind_bits (flags_word s o)) (data_len s o)) ≤ data_len s o)
  Marks-children {o} h =
      rw (Marks-kind_bits o, Marks-data_len h)
        (children_same s t o (kind_bits (flags_word s o)) (data_len s o) (a.sized h) m.size
          (Marks-data_word h))

pub IsPlace-header : {h : Heap} {o : Obj} {n : ℕ} → IsPlace h o n → IsPlace h o 0
IsPlace-header p = record {
  ne_nil = p.ne_nil;
  aligned = p.aligned;
  inside = omega (arith, p.inside);
}

pub is_marked_top :
    (s : Objects) (o : Obj)
    → IsWord (flags_word s o)
    → is_marked s o ≡ leb (2 ^ 63) (flags_word s o)
unfolding is_marked
is_marked_top s o w = marked_iff (flags_word s o) w

module _ {s t : Objects} {objs : List Obj} (a : IsTraced s objs) (m : Marks s objs t) {o : Obj}
    (h : Memᴰ o objs) (fresh : is_marked t o ≡ false) where
  place : IsPlace t.heap o (data_len s o)
  place = Marks-place a m h

  unset : flags_word t o < 2 ^ 63
  unset =
      ground (arith, is_marked_top t o (flags_word-IsWord t m.valid (IsPlace-header place)), fresh)

  abbrev top : Word
  top = 2 ^ 63 + flags_word t o

  after : set_mark t o ≡ with_heap t (set_word t.heap (header_slot o 2) top)
  after =
      unfold set_mark set_flags_word in
      ap (λ v. with_heap t (set_word t.heap (header_slot o 2) v))
        (ap (λ v. bit_or (flags_word t o) v) (let z : mark_bit ≡ 1 * 2 ^ 63 = omega arith in z)
          ∙ bit_or_fields 63 1 (flags_word t o) unset
          ∙ omega arith)

  word_after :
      (i : ℕ)
      → at_index (set_word t.heap (header_slot o 2) top) i
        ≡ (if i == word_index o + 2 then top else at_index t.heap i)
  word_after i = at_index-set_word m.valid place 2 top i (omega arith)

  low_after :
      (i : ℕ)
      → at_index (set_word t.heap (header_slot o 2) top) i % 2 ^ 63 ≡ at_index s.heap i % 2 ^ 63
  low_after i = elim (Bool-cases (i == word_index o + 2)) [
    | inl e ↦
        let here : i ≡ word_index o + 2 = (==_iff i (word_index o + 2)).0 e in
        let new : at_index (set_word t.heap (header_slot o 2) top) i ≡ top =
          word_after i ∙ rw e refl in
        let was : flags_word t o ≡ at_index t.heap i =
          flags_word-at_index t m.valid place ∙ ap (at_index t.heap) (sym here) in
        omega (arith, m.low i)
    | inr e ↦ ap (λ v. v % 2 ^ 63) (word_after i ∙ rw e refl) ∙ m.low i
  ]

  pub set_mark-Marks : Marks s objs (set_mark t o)
  set_mark-Marks = rw after (record {
    others = ap (λ r. with_heap r (set_word t.heap (header_slot o 2) top)) m.others;
    valid = set_word-IsValid m.valid (header_slot o 2) top (omega (arith, unset));
    size = words_len-set_word t.heap (header_slot o 2) top ∙ m.size;
    low = low_after;
    kept = λ i. elim (Bool-cases (i == word_index o + 2)) [
      | inl e ↦ inr (o, h, (==_iff i (word_index o + 2)).0 e)
      | inr e ↦ elim (m.kept i) [
        | inl same ↦ inl (word_after i ∙ rw e refl ∙ same)
        | inr other ↦ inr other
      ]
    ];
  })

  -- The mark is set there and nowhere else among the objects.
  pub is_marked-set_mark :
      {p : Obj} → Memᴰ p objs → is_marked (set_mark t o) p ≡ (p == o || is_marked t p)
  is_marked-set_mark {p} hp =
      let m' = set_mark-Marks in
      let q = Marks-place a m' hp in
      let q0 = Marks-place a m hp in
      let flags' : flags_word (set_mark t o) p ≡ (if p == o then top else flags_word t p) =
        flags_word-at_index (set_mark t o) m'.valid q
        ∙ ap (λ (r : Objects). at_index r.heap (word_index p + 2)) after
        ∙ word_after (word_index p + 2)
        ∙ ap (λ b. if b then top else at_index t.heap (word_index p + 2)) (same_place q0)
        ∙ ap (λ v. if p == o then top else v) (sym (flags_word-at_index t m.valid q0)) in
      is_marked_top (set_mark t o) p (flags_word-IsWord (set_mark t o) m'.valid (IsPlace-header q))
      ∙ ap (leb (2 ^ 63)) flags'
      ∙ elim (Bool-cases (p == o)) [
        | inl e ↦ rw e (le→leb (2 ^ 63) top (omega arith))
        | inr e ↦ rw e (sym (is_marked_top t p (flags_word-IsWord t m.valid (IsPlace-header q0))))
      ]
    where
      same_place : {n : ℕ} → IsPlace t.heap p n → (word_index p + 2 == word_index o + 2) ≡ (p == o)
      same_place q = ground (arith, q.aligned, place.aligned)
