-- ===== src/Value/Atoms.antt =====
-- src/value/num.rs, src/value/ptr.rs and src/value/text.rs: the objects of one word, as made and as
-- read.
use x_engine_rust.Prelude.{
  ℕ, ◌+◌, ◌-◌, ◌^◌, ◌≤◌, ◌<◌, ◌≡◌, refl, sym, ap, ◌∙◌, ◌⊎◌, inl, inr, true, false, some, arith,
  ◌==◌, ◌>>=◌,
}
use x_engine_rust.Prelude.Int.{ℤ, pos, negsuc, ◌≤ℤ◌}
use x_engine_rust.Obj.{Obj, Word, Flags, IsWord, as_i64, from_i64, word_index}
use x_engine_rust.Obj.Laws.{as_i64-from_i64, from_i64-IsWord}
use x_engine_rust.Heap.{words_len, note_allocation}
use x_engine_rust.Heap.Words.{IsValid, words_len-set_word}
use x_engine_rust.Objects.{
  Objects, kind_bits, flags, is, slot, data_word, set_data, meta_extra, lay_out, count_alloc,
  meta_len,
}
use x_engine_rust.Objects.Header.{at_index, IsPlace, data_word-set_data, flags_word-at_index}
use x_engine_rust.Objects.Layout.{IsKind}
use x_engine_rust.Objects.FreeList.{IsReady, IsFreeList-grow, lay_out_outcome}
use x_engine_rust.Objects.Kinds.{flag_int, flag_char, flag_ptr}
use x_engine_rust.Typed.Builtin.{stamp_for, alloc}
use x_engine_rust.Value.{as_int, is_int, is_char, is_ptr}
use x_engine_rust.Value.Make.{atom, int}
use x_engine_rust.Value.Pairs.{
  count_alloc-IsReady, count_alloc-meta_extra, is_of, set-IsValid, set_place, set_kept,
}

-- The stamp of a kind is known, so that finding it changes nothing: the kind's type is filed, or
-- there is no base yet.
abbrev pub Stamps : ℕ → Objects → Flags → Obj → Type 0
Stamps fuel s f ty = stamp_for fuel (count_alloc s) f ≡ some (ty, count_alloc s)

-- The object `o` of one word `w` of kind `f` that `t` has and `s` had not.
pub record IsAtom (s : Objects) (f : Flags) (w : Word) (o : Obj) (t : Objects) : Type 0 where
  pub ready : IsReady t
  pub place : IsPlace t.heap o 1
  pub chain : t.heap_chain ≡ o
  pub kind : (k : Flags) → is t o k ≡ (f == k)
  pub value : data_word t o 0 ≡ w
  pub symbols_kept : t.symbols ≡ s.symbols
  pub shared_kept : t.shared_symbols ≡ s.shared_symbols
  pub kept :
      (i : ℕ)
      → i < words_len s.heap
      → (i < word_index o) ⊎ (word_index o + (meta_len + 1) ≤ i)
      → at_index t.heap i ≡ at_index s.heap i

alloc_form :
    (fuel : ℕ) (s : Objects) (f n : ℕ)
    → alloc fuel s f n
      ≡ (stamp_for fuel (count_alloc s) f >>= (λ (r : Obj × Objects). lay_out r.1 r.0 f n))
unfolding alloc
alloc_form fuel s f n = refl

alloc_stamped :
    (fuel : ℕ) (s : Objects) (f ty n : ℕ)
    → Stamps fuel s f ty
    → alloc fuel s f n ≡ lay_out (count_alloc s) ty f n
alloc_stamped fuel s f ty n e = alloc_form fuel s f n ∙ rw e refl

set_data-IsReady :
    (t : Objects)
    → IsReady t
    → {o : Obj} {n : ℕ} → IsPlace t.heap o n
    → (i v : ℕ) → i < n
    → IsWord v
    → IsReady (set_data t o i v)
set_data-IsReady t r {o} p i v small w = record {
  valid = set-IsValid t r.valid p i v small w;
  chained = unfold set_data in r.chained;
  freed =
      IsFreeList-grow r.freed (unfold set_data in refl)
        (omega (arith, (set_place t r.valid p i v small w).inside, grown));
  reuses = unfold set_data in r.reuses;
}
  where
    grown : words_len (set_data t o i v).heap ≡ words_len t.heap
    grown = unfold set_data in words_len-set_word t.heap (slot o i) v

atom_form :
    (fuel : ℕ) (s : Objects) (f w : ℕ)
    → atom fuel s f w
      ≡ (alloc fuel s f 1 >>= (λ (r : Obj × Objects). some (r.0, set_data r.1 r.0 0 w)))
unfolding atom
atom_form fuel s f w = refl

flags-set_data :
    (t : Objects)
    → IsValid t.heap
    → {o : Obj} {n : ℕ} → IsPlace t.heap o n
    → (i v : ℕ) → i < n
    → IsWord v
    → flags (set_data t o i v) o ≡ flags t o
flags-set_data t ok {o} p i v small w =
    unfold flags in
    ap kind_bits (
      flags_word-at_index (set_data t o i v) (set-IsValid t ok p i v small w)
        (set_place t ok p i v small w)
      ∙ set_kept t ok p i v small w (word_index o + 2) (λ z. omega arith)
      ∙ sym (flags_word-at_index t ok p))

-- What `atom` makes.
pub atom-IsAtom :
    (fuel : ℕ) (s : Objects) (f ty : ℕ) (w : Word)
    → IsReady s
    → Stamps fuel s f ty
    → IsKind f
    → IsWord ty
    → IsWord w
    → words_len s.heap + (meta_extra s + (meta_len + 1)) ≤ s.heap.capacity
    → (o : Obj) × (t : Objects) × (atom fuel s f w ≡ some (o, t)) × IsAtom s f w o t
unfolding count_alloc note_allocation
atom-IsAtom fuel s f ty w r stamped k wty ww room =
    let (o, t, q, a, ready, from) =
      lay_out_outcome (count_alloc s) ty f 1 (count_alloc-IsReady s r) k wty
        (omega (arith, count_alloc-meta_extra s)) in
    let p = a.object.place in
    (
      o,
      set_data t o 0 w,
      atom_form fuel s f w ∙ rw (alloc_stamped fuel s f ty 1 stamped, q) refl,
      record {
        ready = set_data-IsReady t ready p 0 w (omega arith) ww;
        place = set_place t a.valid p 0 w (omega arith) ww;
        chain = unfold set_data in a.chain;
        kind = λ j.
            is_of (set_data t o 0 w) p.ne_nil
              (flags-set_data t a.valid p 0 w (omega arith) ww ∙ a.object.kind) j;
        value = data_word-set_data t a.valid p 0 0 w ww (omega arith) (omega arith) ∙ refl;
        symbols_kept = unfold set_data in ap (λ (v : Objects). v.symbols) a.others;
        shared_kept = unfold set_data in ap (λ (v : Objects). v.shared_symbols) a.others;
        kept = λ i old out.
            set_kept t a.valid p 0 w (omega arith) ww i
              (λ z. elim out [ inl x ↦ omega arith | inr x ↦ omega arith ])
            ∙ a.kept i old out;
      },
    )

-- With a ready state in which the stamp of integers is known, an integer in the range of an `i64`
-- and room in the reservation, `int` answers an object that is an integer and no character and no
-- pointer, whose value is the integer, and that heads the chain of a state that is ready again; of
-- the words that were there only those of the object may have changed.
pub int-as_int :
    (fuel : ℕ) (s : Objects) (ty : Obj) (v : ℤ)
    → IsReady s
    → Stamps fuel s flag_int ty
    → IsWord ty
    → negsuc (2 ^ 63 - 1) ≤ℤ v
    → v ≤ℤ pos (2 ^ 63 - 1)
    → words_len s.heap + (meta_extra s + (meta_len + 1)) ≤ s.heap.capacity
    → (o : Obj) × (t : Objects) × (int fuel s v ≡ some (o, t))
      × (is_int t o ≡ true)
      × (is_char t o ≡ false)
      × (is_ptr t o ≡ false)
      × (as_int t o ≡ v)
      × (t.heap_chain ≡ o)
      × IsReady t
      × ((i : ℕ)
          → i < words_len s.heap
          → (i < word_index o) ⊎ (word_index o + (meta_len + 1) ≤ i)
          → at_index t.heap i ≡ at_index s.heap i)
unfolding int is_int is_char is_ptr as_int
int-as_int fuel s ty v r stamped wty lo hi room =
    let (o, t, q, a) =
      atom-IsAtom fuel s flag_int ty (from_i64 v) r stamped
        (record { low = omega arith; high = omega arith }) wty (from_i64-IsWord v) room in
    (
      o,
      t,
      q,
      a.kind flag_int ∙ refl,
      a.kind flag_char ∙ refl,
      a.kind flag_ptr ∙ refl,
      ap as_i64 a.value ∙ as_i64-from_i64 v lo hi,
      a.chain,
      a.ready,
      a.kept,
    )
