-- ===== src/Objects/Reuse.antt =====
-- src/objects.rs: the reuse branch of `alloc`, which rewrites a swept object of the same size.
use x_engine_rust.Prelude.{
  ℕ, zero, suc, ◌+◌, ◌≤◌, ◌<◌, ◌≡◌, refl, ap, ◌∙◌, ◌⊎◌, inl, inr, arith, ◌==◌, if◌then◌else◌,
  ==_iff, ne→==_false, ==_false→ne, Bool-cases,
}
use x_engine_rust.Obj.{Obj, IsWord, nil, word_index}
use x_engine_rust.Heap.{Heap, words_len, set_word}
use x_engine_rust.Heap.Words.{IsValid, words_len-set_word, capacity-set_word, set_word-IsValid}
use x_engine_rust.Objects.{Objects, with_heap, header_slot, set_data, clear_data, meta_len}
use x_engine_rust.Objects.Header.{at_index, IsPlace, at_index-set_word, IsPlace_grow}

-- `s` with some words of the object at `o` rewritten: the arena is valid, of the same length, and
-- its words outside the object are the same; the other fields are untouched.
pub record Rewrites (s : Objects) (o : Obj) (n : ℕ) (t : Objects) : Type 0 where
  pub valid : IsValid t.heap
  pub size : words_len t.heap ≡ words_len s.heap
  pub capacity : t.heap.capacity ≡ s.heap.capacity
  pub others : t ≡ with_heap s t.heap
  pub kept :
      (i : ℕ)
      → (i < word_index o) ⊎ (word_index o + (meta_len + n) ≤ i)
      → at_index t.heap i ≡ at_index s.heap i

pub write_slot-Rewrites :
    (s : Objects)
    → IsValid s.heap
    → {o : Obj} {n : ℕ} → IsPlace s.heap o n
    → (k v : ℕ) → k < meta_len + n
    → IsWord v
    → Rewrites s o n (with_heap s (set_word s.heap (header_slot o k) v))
write_slot-Rewrites s ok {o} {n} p k v small w = record {
  valid = set_word-IsValid ok (header_slot o k) v w;
  size = words_len-set_word s.heap (header_slot o k) v;
  capacity = capacity-set_word s.heap (header_slot o k) v;
  others = refl;
  kept = λ i out.
      at_index-set_word ok p k v i small
      ∙ rw (
          ne→==_false i (word_index o + k)
            (λ e. elim out [ inl x ↦ omega arith | inr x ↦ omega arith ]));
}

pub Rewrites-trans :
    {s t u : Objects} {o : Obj} {n : ℕ} → Rewrites s o n t → Rewrites t o n u → Rewrites s o n u
Rewrites-trans {s} {t} {u} a b = record {
  valid = b.valid;
  size = b.size ∙ a.size;
  capacity = b.capacity ∙ a.capacity;
  others = b.others ∙ ap (λ r. with_heap r u.heap) a.others;
  kept = λ i out. b.kept i out ∙ a.kept i out;
}

-- `t` is `s` with the data words of the object from `i` on set to nil.
pub record Cleared (s : Objects) (o : Obj) (n i : ℕ) (t : Objects) : Type 0 where
  pub rewrites : Rewrites s o n t
  pub cleared : (j : ℕ) → i ≤ j → j < n → at_index t.heap (word_index o + (meta_len + j)) ≡ 0
  pub same :
      (j : ℕ)
      → j < meta_len + i
      → at_index t.heap (word_index o + j) ≡ at_index s.heap (word_index o + j)

clear_step :
    (s : Objects)
    → IsValid s.heap
    → {o : Obj} {n : ℕ} → IsPlace s.heap o n
    → (i : ℕ) → i < n
    → Rewrites s o n (set_data s o i nil)
unfolding set_data
clear_step s ok p i small = write_slot-Rewrites s ok p (meta_len + i) 0 (omega arith) (omega arith)

Cleared-step :
    (s : Objects) (ok : IsValid s.heap) {o : Obj} {n : ℕ}
    → IsPlace s.heap o n
    → (i : ℕ) {t : Objects} → i < n
    → Cleared (set_data s o i nil) o n (i + 1) t
    → Cleared s o n i t
Cleared-step s ok {o} {n} p i {t} small ih = record {
  rewrites = Rewrites-trans (clear_step s ok p i small) ih.rewrites;
  cleared = λ j above below. elim (Bool-cases (j == i)) [
    | inl here ↦
        let ji : j ≡ i = (==_iff j i).0 here in
        ih.same (meta_len + j) (omega arith)
        ∙ unfold set_data in
          at_index-set_word ok p (meta_len + i) 0 (word_index o + (meta_len + j)) (omega arith)
          ∙ rw (
              (==_iff (word_index o + (meta_len + j)) (word_index o + (meta_len + i))).1
                (omega arith))
    | inr later ↦ ih.cleared j (omega (arith, ==_false→ne j i later)) below
  ];
  same = λ j below.
      ih.same j (omega arith)
      ∙ unfold set_data in
        at_index-set_word ok p (meta_len + i) 0 (word_index o + j) (omega arith)
        ∙ rw (ne→==_false (word_index o + j) (word_index o + (meta_len + i)) (omega arith));
}

pub clear_data-Cleared :
    (left i : ℕ) (s : Objects)
    → IsValid s.heap
    → {o : Obj} {n : ℕ} → IsPlace s.heap o n
    → i + left ≡ n
    → Cleared s o n i (clear_data o left i s)
unfolding clear_data
clear_data-Cleared zero i s ok p e = record {
  rewrites = record {
    valid = ok;
    size = refl;
    capacity = refl;
    others = refl;
    kept = λ i out. refl;
  };
  cleared = λ j above below. absurd (omega arith);
  same = λ j below. refl;
}
clear_data-Cleared (suc left) i s ok {o} p e =
    let one = clear_step s ok p i (omega arith) in
    Cleared-step s ok p i (omega arith) (
      clear_data-Cleared left (i + 1) (set_data s o i nil) one.valid
        (IsPlace_grow p (omega (arith, one.size))) (omega arith))

-- The four header words of the object at `o`.
pub record Headed (t : Objects) (o : Obj) (link ty stored n : ℕ) : Type 0 where
  pub linked : at_index t.heap (word_index o) ≡ link
  pub typed : at_index t.heap (word_index o + 1) ≡ ty
  pub flagged : at_index t.heap (word_index o + 2) ≡ stored
  pub sized : at_index t.heap (word_index o + 3) ≡ n

-- One header write after another.
pub record Written (s : Objects) (o : Obj) (n : ℕ) (t : Objects) : Type 0 where
  pub rewrites : Rewrites s o n t
  pub place : IsPlace t.heap o n

write_slot :
    {s t : Objects} {o : Obj} {n : ℕ}
    → Written s o n t
    → (k v : ℕ) → k < meta_len
    → IsWord v
    → Written s o n (with_heap t (set_word t.heap (header_slot o k) v))
write_slot {t} a k v small w =
    let r = write_slot-Rewrites t a.rewrites.valid a.place k v (omega arith) w in
    record {
      rewrites = Rewrites-trans a.rewrites r;
      place = IsPlace_grow a.place (omega (arith, r.size));
    }

abbrev pub header_write : Obj → Heap → ℕ → ℕ → Heap
header_write o h k v = set_word h (header_slot o k) v

-- The arena after the four header words and the second write of the flags word.
abbrev pub headed : Objects → Obj → ℕ → ℕ → ℕ → ℕ → Heap
headed s o ty f n stored =
    header_write o
      (header_write o
        (header_write o (header_write o (header_write o s.heap 0 s.heap_chain) 1 ty) 2 f) 3 n)
      2 stored

module _ (s : Objects) (ok : IsValid s.heap) {o : Obj} {n : ℕ} (p : IsPlace s.heap o n)
    (ty f stored : ℕ) (chain : IsWord s.heap_chain) (wty : IsWord ty) (wf : IsWord f)
    (wstored : IsWord stored) where
  fits : IsWord n
  fits = omega (arith, p.inside, ok.within, ok.small)

  start : Written s o n s
  start = record {
    rewrites = record {
      valid = ok;
      size = refl;
      capacity = refl;
      others = refl;
      kept = λ i out. refl;
    };
    place = p;
  }

  w0 : Written s o n (with_heap s (header_write o s.heap 0 s.heap_chain))
  w0 = write_slot start 0 s.heap_chain (omega arith) chain

  w1 : Written s o n (with_heap s (header_write o (header_write o s.heap 0 s.heap_chain) 1 ty))
  w1 = write_slot w0 1 ty (omega arith) wty

  w2 : Written s o n (
      with_heap s (header_write o (header_write o (header_write o s.heap 0 s.heap_chain) 1 ty) 2 f))
  w2 = write_slot w1 2 f (omega arith) wf

  pub w3 : Written s o n (
      with_heap s (
        header_write o
          (header_write o (header_write o (header_write o s.heap 0 s.heap_chain) 1 ty) 2 f)
          3
          n))
  w3 = write_slot w2 3 n (omega arith) fits

  pub w4 : Written s o n (with_heap s (headed s o ty f n stored))
  w4 = write_slot w3 2 stored (omega arith) wstored

  -- Word `j` of the header is the last of the five writes that went to slot `j`.
  pub header_word :
      (j : ℕ)
      → j < meta_len
      → at_index (headed s o ty f n stored) (word_index o + j)
        ≡ (if j == 2 then stored else if j == 3 then n else if j == 1 then ty else s.heap_chain)
  header_word j small = ground (
    arith,
    at_index-set_word w3.rewrites.valid w3.place 2 stored (word_index o + j) (omega arith),
    at_index-set_word w2.rewrites.valid w2.place 3 n (word_index o + j) (omega arith),
    at_index-set_word w1.rewrites.valid w1.place 2 f (word_index o + j) (omega arith),
    at_index-set_word w0.rewrites.valid w0.place 1 ty (word_index o + j) (omega arith),
    at_index-set_word ok p 0 s.heap_chain (word_index o + j) (omega arith),
  )

  -- Before its second write the flags word is the bare kind.
  pub bare_flags :
      at_index
        (header_write o
          (header_write o (header_write o (header_write o s.heap 0 s.heap_chain) 1 ty) 2 f)
          3
          n)
        (word_index o + 2)
      ≡ f
  bare_flags = ground (
    arith,
    at_index-set_word w2.rewrites.valid w2.place 3 n (word_index o + 2) (omega arith),
    at_index-set_word w1.rewrites.valid w1.place 2 f (word_index o + 2) (omega arith),
  )
