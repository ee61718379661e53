-- ===== src/Objects/FreeList.antt =====
-- src/objects.rs, src/collect.rs: the free list, and `alloc` over it.
use x_engine_rust.Prelude.{
  ℕ, ◌+◌, ◌*◌, ◌/◌, ◌%◌, ◌^◌, ◌≤◌, ◌<◌, ◌≡◌, refl, sym, ap, ◌∙◌, ◌⊎◌, inl, inr, false, Option, none,
  some, List, [], ◌∷◌, arith, ◌==◌, if◌then◌else◌, ==_iff, ne→==_false, ==_false→ne, Bool-cases,
}
use x_engine_rust.Prelude.Bits.{bit_or_fields_high}
use x_engine_rust.Obj.{Obj, IsWord, word_index}
use x_engine_rust.Heap.{words_len}
use mathlib.Core.List.{Memᴰ}
use x_engine_rust.Objects.Grown.{words_len-append_zeros}
use x_engine_rust.Heap.Words.{IsValid}
use x_engine_rust.Objects.{
  Objects, FreeList, bucket, set_bucket, meta_extra, free_key, take_free, reuse, grow, lay_out,
  meta_len,
}
use x_engine_rust.Objects.Header.{IsPlace, IsPlace_grow}
use x_engine_rust.Objects.Layout.{IsKind}
use x_engine_rust.Objects.Alloc.{IsAllocated, reuse-IsAllocated, grow-IsAllocated}

abbrev pub All {ℓ κ} : {A : Type ℓ} → (A → Type κ) → List A → Type κ
All P [] = Unit
All P (x ∷ xs) = P x × All P xs

pub bucket-set_bucket :
    (free : FreeList) (k j : ℕ) (objs : List Obj)
    → bucket (set_bucket free k objs) j ≡ (if j == k then objs else bucket free j)
bucket-set_bucket [] k j objs = elim (Bool-cases (j == k)) [
  | inl e ↦ rw (e, (==_iff k j).1 (sym ((==_iff j k).0 e)))
  | inr e ↦ rw (e, ne→==_false k j (λ z. ==_false→ne j k e (sym z)))
]
bucket-set_bucket ((i, old) ∷ free) k j objs = ground (arith, bucket-set_bucket free k j objs)

-- The key keeps the size in its upper bytes, and the count of meta words in the lowest.
pub free_key_sum : (n extra : ℕ) → n < 2 ^ 56 → extra < 256 → free_key n extra ≡ n * 256 + extra
free_key_sum n extra hn he =
    let cut : n * 2 ^ 8 % 2 ^ 64 ≡ n * 2 ^ 8 = omega arith in
    rw cut (bit_or_fields_high 8 n extra he)

-- Every object on the free list has the size that its key says.
pub record IsFreeList (s : Objects) : Type 0 where
  pub sized : (key : ℕ) → All (λ o. IsPlace s.heap o (key / 256)) (bucket s.free key)

-- What allocation needs of a state: a valid arena and free list, and no poisoning.
pub record IsReady (s : Objects) : Type 0 where
  pub valid : IsValid s.heap
  pub chained : IsWord s.heap_chain
  pub freed : IsFreeList s
  pub reuses : s.poison_freed ≡ false

pub meta_extra-le : (s : Objects) → meta_extra s ≤ 16
unfolding meta_extra
meta_extra-le s = ground arith

pub All-map : {P Q : Obj → Type 0} (xs : List Obj) → ((o : Obj) → P o → Q o) → All P xs → All Q xs
All-map [] f a = tt
All-map (x ∷ xs) f (p, a) = (f x p, All-map xs f a)

-- The free list of `s`, less the object that was taken.
abbrev taken_free : Objects → ℕ → List Obj → Objects
taken_free s key objs = record s { free = set_bucket s.free key objs }

IsFreeList-tail :
    (s : Objects) (key o : ℕ) (objs : List Obj)
    → IsFreeList s
    → bucket s.free key ≡ o ∷ objs
    → IsPlace s.heap o (key / 256) × IsFreeList (taken_free s key objs)
IsFreeList-tail s key o objs fl e =
    let here : All (λ p. IsPlace s.heap p (key / 256)) (o ∷ objs) = rw e at (fl.sized key) in
    (
      here.0,
      record {
        sized = λ j. rw (bucket-set_bucket s.free key j objs) (elim (Bool-cases (j == key)) [
          | inl z ↦ rw (z, (==_iff j key).0 z) here.1
          | inr z ↦ rw z (fl.sized j)
        ]);
      },
    )

pub IsFreeList-grow :
    {s t : Objects}
    → IsFreeList s
    → t.free ≡ s.free
    → words_len s.heap ≤ words_len t.heap
    → IsFreeList t
IsFreeList-grow {s} fl e le = record {
  sized = λ key. rw e (All-map (bucket s.free key) (λ o p. IsPlace_grow p le) (fl.sized key));
}

pub lay_out-grow :
    (s : Objects) (ty f n : ℕ)
    → s.poison_freed ≡ false
    → bucket s.free (free_key n (meta_extra s)) ≡ []
    → lay_out s ty f n ≡ grow s ty f n (meta_extra s)
lay_out-grow s ty f n p e = unfold lay_out in ap branch none_taken
  where
    branch : Option (Obj × Objects) → Option (Obj × Objects)
    branch r = elim r [
      | some (o, s1) ↦ some (o, reuse s1 o ty f n (meta_extra s))
      | none ↦ grow s ty f n (meta_extra s)
    ]

    none_taken : take_free s n (meta_extra s) ≡ none
    none_taken = unfold take_free in simp (p, e)

lay_out-reuse :
    (s : Objects) (ty f n o : ℕ) (objs : List Obj)
    → s.poison_freed ≡ false
    → bucket s.free (free_key n (meta_extra s)) ≡ o ∷ objs
    → lay_out s ty f n
      ≡ some (
        o,
        reuse
            (record s { free = set_bucket s.free (free_key n (meta_extra s)) objs })
            o
            ty
            f
            n
            (meta_extra s),
      )
lay_out-reuse s ty f n o objs p e = unfold lay_out in ap branch taken
  where
    branch : Option (Obj × Objects) → Option (Obj × Objects)
    branch r = elim r [
      | some (o, s1) ↦ some (o, reuse s1 o ty f n (meta_extra s))
      | none ↦ grow s ty f n (meta_extra s)
    ]

    taken :
        take_free s n (meta_extra s)
        ≡ some (o, record s { free = set_bucket s.free (free_key n (meta_extra s)) objs })
    taken = unfold take_free in simp (p, e)

-- What an allocation leaves is ready for the next one.
allocated-IsReady :
    (s t : Objects) {o : Obj} {ty f extra n : ℕ}
    → IsFreeList t
    → s.poison_freed ≡ false
    → IsAllocated s ty f extra n o t
    → IsReady t
allocated-IsReady s t fl clean a = record {
  valid = a.valid;
  chained = omega (arith, a.chain, a.object.place.inside, a.valid.within, a.valid.small);
  freed = fl;
  reuses = ap (λ (v : Objects). v.poison_freed) a.others ∙ clean;
}

pub free_key_size : (s : Objects) (n : ℕ) → n < 2 ^ 40 → free_key n (meta_extra s) / 256 ≡ n
free_key_size s n small =
    ap (λ t. t / 256) (free_key_sum n (meta_extra s) (omega arith) (omega (arith, meta_extra-le s)))
    ∙ omega (arith, meta_extra-le s)

-- Where an object of `n` data words comes from: the frontier, or the free list of its size.
abbrev pub Origin : Objects → ℕ → Obj → Type 0
Origin s n o =
    (words_len s.heap ≤ word_index o) ⊎ Memᴰ o (bucket s.free (free_key n (meta_extra s)))

-- The reuse branch, from a free list whose bucket for the size is not empty.
pub reuse_outcome :
    (s : Objects) (ty f n o : ℕ) (objs : List Obj)
    → IsReady s
    → IsKind f
    → IsWord ty
    → n < 2 ^ 40
    → bucket s.free (free_key n (meta_extra s)) ≡ o ∷ objs
    → (t : Objects) × (lay_out s ty f n ≡ some (o, t))
      × IsAllocated s ty f (meta_extra s) n o t
      × IsReady t
      × Origin s n o
reuse_outcome s ty f n o objs r k wty small e =
    let (p0, fl) = IsFreeList-tail s (free_key n (meta_extra s)) o objs r.freed e in
    let p : IsPlace s.heap o n = rw (free_key_size s n small) at p0 in
    let s1 : Objects = record s { free = set_bucket s.free (free_key n (meta_extra s)) objs } in
    let (a, same) =
      reuse-IsAllocated s1 o ty f n (meta_extra s) r.valid p k (meta_extra-le s) r.chained wty in
    let t = reuse s1 o ty f n (meta_extra s) in
    let al : IsAllocated s ty f (meta_extra s) n o t = record {
      valid = a.valid;
      object = a.object;
      chain = a.chain;
      longer = a.longer;
      at_most = a.at_most;
      capacity = a.capacity;
      others = a.others;
      kept = a.kept;
    } in
    (
      t,
      lay_out-reuse s ty f n o objs r.reuses e,
      al,
      allocated-IsReady s t (IsFreeList-grow fl same a.longer) r.reuses al,
      inr (rw e (Memᴰ.head refl)),
    )

-- The growth branch, with room in the reservation.
pub grow_outcome :
    (s : Objects) (ty f n : ℕ)
    → IsReady s
    → IsKind f
    → IsWord ty
    → words_len s.heap + (meta_extra s + (meta_len + n)) ≤ s.heap.capacity
    → bucket s.free (free_key n (meta_extra s)) ≡ []
    → (o : Obj) × (t : Objects) × (lay_out s ty f n ≡ some (o, t))
      × IsAllocated s ty f (meta_extra s) n o t
      × IsReady t
      × Origin s n o
grow_outcome s ty f n r k wty room e =
    let (t, q, a, same) =
      grow-IsAllocated s ty f n (meta_extra s) r.valid k (meta_extra-le s) r.chained wty room in
    (
      _,
      t,
      lay_out-grow s ty f n r.reuses e ∙ q,
      a,
      allocated-IsReady s t (IsFreeList-grow r.freed same a.longer) r.reuses a,
      inl (omega (arith, words_len-append_zeros (meta_extra s) s.heap)),
    )

-- Both branches.
pub lay_out_outcome :
    (s : Objects) (ty f n : ℕ)
    → IsReady s
    → IsKind f
    → IsWord ty
    → words_len s.heap + (meta_extra s + (meta_len + n)) ≤ s.heap.capacity
    → (o : Obj) × (t : Objects) × (lay_out s ty f n ≡ some (o, t))
      × IsAllocated s ty f (meta_extra s) n o t
      × IsReady t
      × Origin s n o
lay_out_outcome s ty f n r k wty room = go (bucket s.free (free_key n (meta_extra s))) refl
  where
    go :
        (objs : List Obj)
        → bucket s.free (free_key n (meta_extra s)) ≡ objs
        → (o : Obj) × (t : Objects) × (lay_out s ty f n ≡ some (o, t))
          × IsAllocated s ty f (meta_extra s) n o t
          × IsReady t
          × Origin s n o
    go [] e = grow_outcome s ty f n r k wty room e
    go (o ∷ objs) e =
        let (t, q, a, ready, from) =
          reuse_outcome s ty f n o objs r k wty (omega (arith, r.valid.small)) e in
        (o, t, q, a, ready, from)

-- With a ready state, a kind that leaves the meta bit and the top byte free, a type that is a
-- word, and room in the reservation, the allocation of `n` data words returns an object with its
-- header as asked for and its data nil, from the free list or from the frontier. The object heads
-- the chain, the arena stays valid, of the words that were there only those of the object may have
-- changed, and of the fields only the arena, the head of the chain and the free list.
pub lay_out-IsAllocated :
    (s : Objects) (ty f n : ℕ)
    → IsReady s
    → IsKind f
    → IsWord ty
    → words_len s.heap + (meta_extra s + (meta_len + n)) ≤ s.heap.capacity
    → (o : Obj) × (t : Objects) × (lay_out s ty f n ≡ some (o, t))
      × IsAllocated s ty f (meta_extra s) n o t
lay_out-IsAllocated s ty f n r k wty room =
    let (o, t, q, a, ready, from) = lay_out_outcome s ty f n r k wty room in (o, t, q, a)
