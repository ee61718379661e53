-- ===== src/Objects/Alloc.antt =====
-- src/objects.rs: what `alloc` answers, in both of its branches, for the type word it has chosen.
use x_engine_rust.Prelude.{
  ℕ, zero, suc, ◌+◌, ◌≤◌, ◌<◌, ◌≡◌, refl, sym, ap, ◌∙◌, ◌⊎◌, some, List, ◌++◌, arith, length,
  get_or, replicate, length-replicate, get_or-append_left, get_or-append_right,
}
use x_engine_rust.Obj.{Obj, IsWord, word_index}
use x_engine_rust.Heap.{Heap, words_len, append_zeros, frontier}
use x_engine_rust.Heap.Words.{IsValid}
use x_engine_rust.Heap.Grow.{
  Extends, replicate-bounded, replicate-zero, words_len-Extends, Extends-IsValid,
}
use x_engine_rust.Objects.{
  Objects, with_heap, flags_word, kind_bits, flags, type_of_word, data_word, data_len, chain_next,
  clear_data, reuse, grow, meta_len,
}
use x_engine_rust.Objects.Header.{
  at_index, IsPlace, IsPlace_grow, chain_next-at_index, type_of_word-at_index, flags_word-at_index,
  data_len-at_index, data_word-at_index,
}
use x_engine_rust.Objects.Layout.{stored_flags, IsKind, stored_flags-IsWord, kind_bits-stored_flags}
use x_engine_rust.Objects.Reuse.{
  Rewrites-trans, clear_data-Cleared, header_write, headed, w3, w4, header_word, bare_flags,
}
use x_engine_rust.Objects.Grown.{
  object_words, grown_heap, grown_heap-Extends, meta-Extends, words_len-append_zeros,
  grow-grown_heap,
}

-- The object `o` in `t`: an aligned place that is not nil, its header as asked for, its data nil,
-- and its link the chain of before.
pub record IsObject (t : Objects) (o : Obj) (link ty f extra n : ℕ) : Type 0 where
  pub place : IsPlace t.heap o n
  pub linked : chain_next t o ≡ link
  pub typed : type_of_word t o ≡ ty
  pub stored : flags_word t o ≡ stored_flags f extra
  pub kind : flags t o ≡ f
  pub sized : data_len t o ≡ n
  pub cleared : (i : ℕ) → i < n → data_word t o i ≡ 0

-- The outcome of an allocation in `s`: the object heads the chain, the arena is valid and no
-- shorter, of the words that were there only those of the object may have changed, and no field
-- changes but the arena, the head of the chain and the free list.
pub record IsAllocated (s : Objects) (ty f extra n : ℕ) (o : Obj) (t : Objects) : Type 0 where
  pub valid : IsValid t.heap
  pub object : IsObject t o s.heap_chain ty f extra n
  pub chain : t.heap_chain ≡ o
  pub longer : words_len s.heap ≤ words_len t.heap
  pub at_most : words_len t.heap ≤ words_len s.heap + (extra + (meta_len + n))
  pub capacity : t.heap.capacity ≡ s.heap.capacity
  pub others : t ≡ record s { heap = t.heap; heap_chain = o; free = t.free }
  pub kept :
      (i : ℕ)
      → i < words_len s.heap
      → (i < word_index o) ⊎ (word_index o + (meta_len + n) ≤ i)
      → at_index t.heap i ≡ at_index s.heap i

-- From the words of the arena to the accessors.
IsObject-of_words :
    (t : Objects) {o : Obj} {link ty f extra n : ℕ}
    → IsValid t.heap
    → IsPlace t.heap o n
    → IsKind f
    → extra ≤ 16
    → at_index t.heap (word_index o + 0) ≡ link
    → at_index t.heap (word_index o + 1) ≡ ty
    → at_index t.heap (word_index o + 2) ≡ stored_flags f extra
    → at_index t.heap (word_index o + 3) ≡ n
    → ((i : ℕ) → i < n → at_index t.heap (word_index o + (meta_len + i)) ≡ 0)
    → IsObject t o link ty f extra n
IsObject-of_words t {f} {extra} ok p k small e0 e1 e2 e3 e4 = record {
  place = p;
  linked = chain_next-at_index t ok p ∙ ap (at_index t.heap) (omega arith) ∙ e0;
  typed = type_of_word-at_index t ok p ∙ e1;
  stored = flags_word-at_index t ok p ∙ e2;
  kind =
      unfold flags in
      ap kind_bits (flags_word-at_index t ok p ∙ e2) ∙ kind_bits-stored_flags f extra k small;
  sized = data_len-at_index t ok p ∙ e3;
  cleared = λ i h. data_word-at_index t ok p i h ∙ e4 i h;
}

abbrev bare : Objects → Obj → ℕ → ℕ → ℕ → Heap
bare s o ty f n =
    header_write o (header_write o (header_write o (header_write o s.heap 0 s.heap_chain) 1 ty) 2 f)
      3 n

-- The reuse branch, at a place of the size asked for.
pub reuse-IsAllocated :
    (s : Objects) (o ty f n extra : ℕ)
    → IsValid s.heap
    → IsPlace s.heap o n
    → IsKind f
    → extra ≤ 16
    → IsWord s.heap_chain
    → IsWord ty
    → IsAllocated s ty f extra n o (reuse s o ty f n extra)
      × ((reuse s o ty f n extra).free ≡ s.free)
reuse-IsAllocated s o ty f n extra ok p k small chain wty =
    let wf : IsWord f = omega (arith, k.high) in
    let stored = stored_flags f extra in
    let wst = stored_flags-IsWord f extra k small in
    let h = w3 s ok p ty f stored chain wty wf wst in
    let head = w4 s ok p ty f stored chain wty wf wst in
    let word_of = header_word s ok p ty f stored chain wty wf wst in
    let c =
      clear_data-Cleared n 0 (with_heap s (headed s o ty f n stored)) head.rewrites.valid head.place
        (omega arith) in
    let cleared = clear_data o n 0 (with_heap s (headed s o ty f n stored)) in
    let t : Objects = record cleared { heap_chain = o } in
    let old : flags_word (with_heap s (bare s o ty f n)) o ≡ f =
      flags_word-at_index (with_heap s (bare s o ty f n)) h.rewrites.valid h.place
      ∙ bare_flags s ok p ty f stored chain wty wf wst in
    let same : reuse s o ty f n extra ≡ t = unfold reuse in rw old in
    let r = Rewrites-trans head.rewrites c.rewrites in
    let fields : cleared ≡ with_heap s cleared.heap = r.others in
    rw same (
      record {
        valid = r.valid;
        object =
            IsObject-of_words t r.valid (IsPlace_grow p (omega (arith, r.size))) k small
              (c.same 0 (omega arith) ∙ word_of 0 (omega arith))
              (c.same 1 (omega arith) ∙ word_of 1 (omega arith))
              (c.same 2 (omega arith) ∙ word_of 2 (omega arith))
              (c.same 3 (omega arith) ∙ word_of 3 (omega arith)) (λ i. c.cleared i (omega arith));
        chain = refl;
        longer = omega (arith, r.size);
        at_most = omega (arith, r.size);
        capacity = r.capacity;
        others =
            ap (λ (v : Objects). record v { heap_chain = o }) fields
            ∙ ap (λ l. record s { heap = cleared.heap; heap_chain = o; free = l })
                (sym (ap (λ (v : Objects). v.free) fields));
        kept = λ i old out. r.kept i out;
      },
      ap (λ (v : Objects). v.free) fields,
    )

-- The growth branch, with room in the reservation.
pub grow-IsAllocated :
    (s : Objects) (ty f n extra : ℕ)
    → IsValid s.heap
    → IsKind f
    → extra ≤ 16
    → IsWord s.heap_chain
    → IsWord ty
    → words_len s.heap + (extra + (meta_len + n)) ≤ s.heap.capacity
    → (t : Objects) × (grow s ty f n extra ≡ some (frontier (append_zeros extra s.heap), t))
      × IsAllocated s ty f extra n (frontier (append_zeros extra s.heap)) t
      × (t.free ≡ s.free)
grow-IsAllocated s ty f n extra ok k small chain wty room = (
  grown,
  grow-grown_heap s ty f n extra room,
  record {
    valid = valid;
    object =
        IsObject-of_words grown valid place k small (word_at 0) (word_at 1) (word_at 2) (word_at 3)
          zeros;
    chain = refl;
    longer = omega (arith, len, l0);
    at_most = omega (arith, len, l0);
    capacity = e.capacity ∙ e0.capacity;
    others = refl;
    kept = λ i old out.
        ap (λ ws. get_or ws i 0) e.words
        ∙ get_or-append_left h0.words more i 0 (omega (arith, l0))
        ∙ ap (λ ws. get_or ws i 0) e0.words
        ∙ get_or-append_left s.heap.words (replicate extra 0) i 0 old;
  },
  refl,
)
  where
    h0 : Heap
    h0 = append_zeros extra s.heap

    o : Obj
    o = frontier h0

    more : List ℕ
    more = object_words s.heap_chain ty (stored_flags f extra) n

    grown : Objects
    grown = record s { heap = grown_heap s ty f n extra; heap_chain = o }

    e : Extends h0 grown.heap more
    e = grown_heap-Extends s ty f n extra

    e0 : Extends s.heap h0 (replicate extra 0)
    e0 = meta-Extends s extra

    l0 : words_len h0 ≡ words_len s.heap + extra
    l0 = words_len-append_zeros extra s.heap

    count : length {A = ℕ} (replicate n 0) ≡ n
    count = length-replicate n 0

    len : words_len grown.heap ≡ words_len h0 + (meta_len + n)
    len = words_len-Extends e ∙ omega (arith, count)

    valid0 : IsValid h0
    valid0 =
        Extends-IsValid e0 ok (replicate-bounded extra)
          (omega (arith, length-replicate {A = ℕ} extra 0))

    bounded : (i : ℕ) → IsWord (get_or more i 0)
    bounded zero = chain
    bounded (suc zero) = wty
    bounded (suc (suc zero)) = stored_flags-IsWord f extra k small
    bounded (suc (suc (suc zero))) = omega (arith, ok.small)
    bounded (suc (suc (suc (suc i)))) = replicate-bounded n i

    valid : IsValid grown.heap
    valid = Extends-IsValid e valid0 bounded (omega (arith, count, l0, e0.capacity))

    place : IsPlace grown.heap o n
    place = record {
      ne_nil = omega (arith, valid0.reserved);
      aligned = omega arith;
      inside = omega (arith, len);
    }

    base_index : word_index o ≡ words_len h0
    base_index = omega arith

    word_at : (j : ℕ) → at_index grown.heap (word_index o + j) ≡ get_or more j 0
    word_at j =
        ap (λ ws. get_or ws (word_index o + j) 0) e.words
        ∙ ap (λ b. get_or (h0.words ++ more) (b + j) 0) base_index
        ∙ get_or-append_right h0.words more j 0

    zeros : (i : ℕ) → i < n → at_index grown.heap (word_index o + (meta_len + i)) ≡ 0
    zeros i h =
        word_at (meta_len + i)
        ∙ ap (λ j. get_or more j 0)
            (let z : meta_len + i ≡ suc (suc (suc (suc i))) = omega arith in z)
        ∙ replicate-zero n i
