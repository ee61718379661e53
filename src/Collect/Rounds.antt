-- ===== src/Collect/Rounds.antt =====
-- src/collect.rs: the rounds of the sweep put together, with what the loop needs before each.
use x_engine_rust.Prelude.{
  ℕ, ◌+◌, ◌*◌, ◌/◌, ◌%◌, ◌^◌, ◌≤◌, ◌<◌, bit_and, bit_or, ◌≡◌, refl, sym, ap, ap₂, ◌∙◌, ◌⊎◌, inl,
  inr, Bool, false, not, List, [], ◌∷◌, arith, ◌==◌, if◌then◌else◌, Bool-cases,
}
use x_engine_rust.Obj.{Obj, IsWord, word_index}
use x_engine_rust.Heap.{words_len}
use x_engine_rust.Heap.Words.{IsValid}
use x_engine_rust.Objects.{
  Objects, FreeList, bucket, set_bucket, flags_word, data_len, chain_next, meta_len,
  flag_meta_shift,
}
use x_engine_rust.Objects.Header.{
  at_index, IsPlace, IsPlace_grow, data_len-at_index, flags_word-at_index,
}
use x_engine_rust.Objects.FreeList.{All}
use x_engine_rust.Collect.{mark_bit, is_marked, sweep_key}
use x_engine_rust.Collect.Chain.{
  Apart, Chain, Touches-word, Touches-place, Touches-flags_word, Touches-Chain,
}
use x_engine_rust.Collect.Round.{swept_flags, Reads, Round}

-- The objects that the sweep keeps, put one by one in front of `ys`.
abbrev pub kept_onto : (Obj → Bool) → List Obj → List Obj → List Obj
kept_onto m [] ys = ys
kept_onto m (o ∷ xs) ys = kept_onto m xs (if m o then o ∷ ys else ys)

abbrev pub dead : (Obj → Bool) → List Obj → ℕ
dead m [] = 0
dead m (o ∷ xs) = (if m o then 0 else 1) + dead m xs

-- The free list after the objects without a mark have been put on it, each under its key.
abbrev pub released : (Obj → Bool) → (Obj → ℕ) → List Obj → FreeList → FreeList
released m key [] free = free
released m key (o ∷ xs) free =
    released m key xs (if m o then free else set_bucket free (key o) (o ∷ bucket free (key o)))

-- The outcome of sweeping the chain `xs` of `s` onto the kept chain `ys`.
pub record Swept (s : Objects) (m : Obj → Bool) (key : Obj → ℕ) (xs ys : List Obj) (freed : ℕ)
    (t : Objects) (kept : Obj) (freed' : ℕ) : Type 0 where
  pub valid : IsValid t.heap
  pub size : words_len t.heap ≡ words_len s.heap
  pub chain : Chain t kept (kept_onto m xs ys)
  pub count : freed' ≡ freed + dead m xs
  pub flagged : All (λ o. flags_word t o ≡ swept_flags m o (flags_word s o)) xs
  pub unmoved :
      (i : ℕ)
      → All (λ o. (i < word_index o) ⊎ (word_index o + meta_len ≤ i)) xs
      → at_index t.heap i ≡ at_index s.heap i
  pub free : t.free ≡ released m key xs s.free
  pub others : t ≡ record s { heap = t.heap; free = t.free }

-- What the loop needs of the objects ahead and of the chain kept so far.
pub record Ahead (s : Objects) (m : Obj → Bool) (key : Obj → ℕ) (xs ys : List Obj) (at kept : Obj)
    : Type 0 where
  pub valid : IsValid s.heap
  pub clean : s.poison_freed ≡ false
  pub chain : Chain s at xs
  pub done : Chain s kept ys
  pub apart : All (λ o. All (Apart o) ys) xs
  pub reads : All (Reads s m key) xs

pub Chain-IsWord :
    (s : Objects) → IsValid s.heap → (at : Obj) (xs : List Obj) → Chain s at xs → IsWord at
Chain-IsWord s ok at [] e = omega arith
Chain-IsWord s ok at (o ∷ xs) (e, p, a, c) = omega (arith, e, p.inside, ok.within, ok.small)

Apart-sym : (o p : Obj) → Apart o p → Apart p o
Apart-sym o p (inl x) = inr x
Apart-sym o p (inr x) = inl x

module _ {s t : Objects} {m : Obj → Bool} {key : Obj → ℕ} {o kept : Obj} (ok : IsValid s.heap)
    (r : Round s m key o kept t) where
  Reads-round :
      (xs : List Obj)
      → All (λ p. IsPlace s.heap p 0) xs
      → All (Apart o) xs
      → All (Reads s m key) xs
      → All (Reads t m key) xs
  Reads-round [] places aparts reads = tt
  Reads-round (p ∷ xs) (q, places) (a, aparts) ((mark, k), reads) =
      let f = Touches-flags_word ok r.touches q a in
      let l : data_len t p ≡ data_len s p =
        data_len-at_index t r.touches.valid (Touches-place ok r.touches q)
        ∙ Touches-word ok r.touches q a 3 (omega arith)
        ∙ sym (data_len-at_index s ok q) in
      (
        (
          unfold is_marked in ap (λ w. not (bit_and w mark_bit == 0)) f ∙ mark,
          unfold sweep_key in
              ap₂ (λ n w. bit_or (n * 2 ^ 8 % 2 ^ 64) (bit_and (w / 2 ^ flag_meta_shift) 0x3f)) l f
              ∙ k,
        ),
        Reads-round xs places aparts reads,
      )

Chain-places :
    (s : Objects) (at : Obj) (xs : List Obj) → Chain s at xs → All (λ p. IsPlace s.heap p 0) xs
Chain-places s at [] c = tt
Chain-places s at (o ∷ xs) (e, p, a, c) = (p, Chain-places s (chain_next s o) xs c)

All-both :
    {P Q R : Obj → Type 0}
    → ((o : Obj) → P o → Q o → R o)
    → (xs : List Obj) → All P xs
    → All Q xs
    → All R xs
All-both f [] a b = tt
All-both f (x ∷ xs) (p, a) (q, b) = (f x p q, All-both f xs a b)

-- One round leaves the loop at the next object, with what it needs.
pub Ahead-Round :
    (s : Objects) (m : Obj → Bool) (key : Obj → ℕ) (o : Obj) (xs ys : List Obj) (at kept : Obj)
    (t : Objects)
    → Ahead s m key (o ∷ xs) ys at kept
    → Round s m key o kept t
    → Ahead t m key xs (if m o then o ∷ ys else ys) (chain_next s o) (if m o then o else kept)
Ahead-Round s m key o xs ys at kept t a r = elim (Bool-cases (m o)) [
  | inl e ↦ rw e (record {
    valid = r.touches.valid;
    clean = clean;
    chain = ahead;
    done = (refl, Touches-place a.valid r.touches a.chain.1, a.apart.0, rw (r.linked e) behind);
    apart = All-both (λ p q b. (Apart-sym o p q, b)) xs a.chain.2 a.apart.1;
    reads = reads;
  })
  | inr e ↦ rw e (record {
    valid = r.touches.valid;
    clean = clean;
    chain = ahead;
    done = behind;
    apart = a.apart.1;
    reads = reads;
  })
]
  where
    clean : t.poison_freed ≡ false
    clean = ap (λ (u : Objects). u.poison_freed) r.touches.others ∙ a.clean

    ahead : Chain t (chain_next s o) xs
    ahead = Touches-Chain a.valid r.touches xs (chain_next s o) a.chain.2 a.chain.3

    behind : Chain t kept ys
    behind = Touches-Chain a.valid r.touches ys kept a.apart.0 a.done

    reads : All (Reads t m key) xs
    reads =
        Reads-round a.valid r xs (Chain-places s (chain_next s o) xs a.chain.3) a.chain.2 a.reads.1

-- The outcome of one round put before that of the rounds after it.
pub Swept-Round :
    (s : Objects) (m : Obj → Bool) (key : Obj → ℕ) (o : Obj) (xs ys : List Obj) (at kept : Obj)
    (t : Objects)
    → Ahead s m key (o ∷ xs) ys at kept
    → Round s m key o kept t
    → {u : Objects} {kept' freed freed' : ℕ}
    → Swept t m key xs
        (if m o then o ∷ ys else ys)
        (if m o then freed else freed + 1)
        u
        kept'
        freed'
    → Swept s m key (o ∷ xs) ys freed u kept' freed'
Swept-Round s m key o xs ys at kept t a r {u} {freed} w = record {
  valid = w.valid;
  size = w.size ∙ r.touches.size;
  chain = w.chain;
  count =
      w.count ∙ elim (Bool-cases (m o)) [ inl e ↦ rw e (omega arith) | inr e ↦ rw e (omega arith) ];
  flagged =
      (here, rest_flagged xs a.chain.2 (Chain-places s (chain_next s o) xs a.chain.3) w.flagged);
  unmoved = λ i (out, outs). w.unmoved i outs ∙ r.touches.kept i out;
  free = w.free ∙ ap (released m key xs) r.free;
  others =
      w.others ∙ ap (λ (v : Objects). record v { heap = u.heap; free = u.free }) r.touches.others;
}
  where
    outside :
        (ps : List Obj)
        → All (Apart o) ps
        → All
            (λ p. (word_index o + 2 < word_index p) ⊎ (word_index p + meta_len ≤ word_index o + 2))
            ps
    outside [] aps = tt
    outside (p ∷ ps) (b, aps) =
        (elim b [ inl x ↦ inl (omega arith) | inr x ↦ inr (omega arith) ], outside ps aps)

    place_t : IsPlace t.heap o 0
    place_t = IsPlace_grow a.chain.1 (omega (arith, r.touches.size))

    here : flags_word u o ≡ swept_flags m o (flags_word s o)
    here =
        flags_word-at_index u w.valid (IsPlace_grow place_t (omega (arith, w.size)))
        ∙ w.unmoved (word_index o + 2) (outside xs a.chain.2)
        ∙ sym (flags_word-at_index t r.touches.valid place_t)
        ∙ r.flagged

    rest_flagged :
        (ps : List Obj)
        → All (Apart o) ps
        → All (λ p. IsPlace s.heap p 0) ps
        → All (λ p. flags_word u p ≡ swept_flags m p (flags_word t p)) ps
        → All (λ p. flags_word u p ≡ swept_flags m p (flags_word s p)) ps
    rest_flagged [] aps qs fs = tt
    rest_flagged (p ∷ ps) (b, aps) (q, qs) (f, fs) = (
      f ∙ ap (swept_flags m p) (Touches-flags_word a.valid r.touches q b),
      rest_flagged ps aps qs fs,
    )
