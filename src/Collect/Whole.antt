-- ===== src/Collect/Whole.antt =====
-- src/collect.rs: a mark pass and the sweep after it, as `collect` runs them between its hooks.
use x_engine_rust.Prelude.{
  ℕ, ◌+◌, ◌-◌, ◌*◌, ◌/◌, ◌%◌, ◌^◌, ◌≤◌, ◌<◌, bit_and, bit_or, ◌≡◌, refl, sym, ap, ap₂, ◌∙◌, ◌↔◌,
  ◌⊎◌, inl, inr, Bool, true, false, some, List, [], ◌∷◌, arith, ◌==◌, if◌then◌else◌, ==_iff,
  Bool-cases, length,
}
use mathlib.Core.List.{Memᴰ}
use mathlib.Core.List.Memᴰ
use x_engine_rust.Prelude.Bits.{bit_and_mask}
use x_engine_rust.Obj.{Obj, IsWord, word_index}
use x_engine_rust.Heap.{words_len}
use x_engine_rust.Heap.Words.{IsValid}
use x_engine_rust.Objects.{
  Objects, FreeList, bucket, set_bucket, flags_word, data_word, data_len, chain_next, meta_len,
}
use x_engine_rust.Objects.Header.{at_index, IsPlace_grow, data_word-at_index}
use x_engine_rust.Objects.FreeList.{All, bucket-set_bucket}
use x_engine_rust.Collect.{is_freed, is_marked, mark, sweep, sweep_key, meta_count, freed_word}
use x_engine_rust.Collect.Chain.{Chain, flags_word-IsWord}
use x_engine_rust.Collect.Round.{swept_flags}
use x_engine_rust.Collect.Rounds.{kept_onto, dead, released}
use x_engine_rust.Collect.Sweep.{sweep-Swept}
use x_engine_rust.Collect.Edges.{is_object, Reachable}
use x_engine_rust.Collect.Marks.{
  IsTraced, Marks, Marks-place, Marks-chain_next, Marks-flags_word, Marks-data_len, Marks-data_word,
  is_marked_top, IsPlace-header,
}
use x_engine_rust.Collect.Mark.{work, mark-Reachable}

pub All-Memᴰ : (P : Obj → Type 0) (xs : List Obj) {o : Obj} → All P xs → Memᴰ o xs → P o
All-Memᴰ P [] ps h = absurd (Memᴰ.not-nil h)
All-Memᴰ P (x ∷ xs) {o} (p, ps) h = elim (Memᴰ.cases_cons h) [
  | inl e ↦ rw e p
  | inr z ↦ All-Memᴰ P xs ps z
]

Memᴰ-All : (P : Obj → Type 0) (xs : List Obj) → ((o : Obj) → Memᴰ o xs → P o) → All P xs
Memᴰ-All P [] f = tt
Memᴰ-All P (x ∷ xs) f = (f x (Memᴰ.head refl), Memᴰ-All P xs (λ o h. f o (Memᴰ.tail h)))

-- The chain of the objects kept is that of the marked ones.
onto_kept : (m : Obj → Bool) (xs ys : List Obj) {o : Obj} → Memᴰ o ys → Memᴰ o (kept_onto m xs ys)
onto_kept m [] ys h = h
onto_kept m (x ∷ xs) ys h = elim (Bool-cases (m x)) [
  | inl e ↦ rw e (onto_kept m xs (x ∷ ys) (Memᴰ.tail h))
  | inr e ↦ rw e (onto_kept m xs ys h)
]

marked_kept :
    (m : Obj → Bool) (xs ys : List Obj) {o : Obj}
    → m o ≡ true
    → Memᴰ o xs
    → Memᴰ o (kept_onto m xs ys)
marked_kept m [] ys e h = absurd (Memᴰ.not-nil h)
marked_kept m (x ∷ xs) ys e h = elim (Memᴰ.cases_cons h) [
  | inl same ↦
      let top : m x ≡ true = ap m (sym same) ∙ e in
      rw top (onto_kept m xs (x ∷ ys) (Memᴰ.head same))
  | inr z ↦ marked_kept m xs (if m x then x ∷ ys else ys) e z
]

kept_marked :
    (m : Obj → Bool) (xs ys : List Obj) {o : Obj}
    → Memᴰ o (kept_onto m xs ys)
    → (Memᴰ o xs × (m o ≡ true)) ⊎ Memᴰ o ys
kept_marked m [] ys h = inr h
kept_marked m (x ∷ xs) ys {o} h = elim (Bool-cases (m x)) [
  | inl e ↦ elim (kept_marked m xs (x ∷ ys) (rw e at h)) [
    | inl (z, d) ↦ inl (Memᴰ.tail z, d)
    | inr z ↦ elim (Memᴰ.cases_cons z) [
      | inl same ↦ inl (Memᴰ.head same, ap m same ∙ e)
      | inr y ↦ inr y
    ]
  ]
  | inr e ↦ elim (kept_marked m xs ys (rw e at h)) [
    | inl (z, d) ↦ inl (Memᴰ.tail z, d)
    | inr z ↦ inr z
  ]
]

-- An unmarked object ends in the bucket of its key.
stays_released :
    (m : Obj → Bool) (key : Obj → ℕ) (xs : List Obj) (free : FreeList) (k : ℕ) {o : Obj}
    → Memᴰ o (bucket free k)
    → Memᴰ o (bucket (released m key xs free) k)
stays_released m key [] free k h = h
stays_released m key (x ∷ xs) free k {o} h = stays_released m key xs _ k (kept (m x))
  where
    kept :
        (b : Bool)
        → Memᴰ o (bucket (if b then free else set_bucket free (key x) (x ∷ bucket free (key x))) k)
    kept true = h
    kept false =
        rw (bucket-set_bucket free (key x) k (x ∷ bucket free (key x)))
          (elim (Bool-cases (k == key x)) [
            | inl e ↦ rw e (Memᴰ.tail (rw ((==_iff k (key x)).0 e) at h))
            | inr e ↦ rw e h
          ])

unmarked_released :
    (m : Obj → Bool) (key : Obj → ℕ) (xs : List Obj) (free : FreeList) {o : Obj}
    → m o ≡ false
    → Memᴰ o xs
    → Memᴰ o (bucket (released m key xs free) (key o))
unmarked_released m key [] free e h = absurd (Memᴰ.not-nil h)
unmarked_released m key (x ∷ xs) free {o} e h = elim (Memᴰ.cases_cons h) [
  | inr z ↦ unmarked_released m key xs _ e z
  | inl same ↦
      let off : m x ≡ false = ap m (sym same) ∙ e in
      rw off (
        stays_released m key xs (set_bucket free (key x) (x ∷ bucket free (key x))) (key o) (
          rw
            (
              bucket-set_bucket free (key x) (key o) (x ∷ bucket free (key x)),
              (==_iff (key o) (key x)).1 (ap key same),
            )
            (Memᴰ.head same)))
]

-- The state after a mark pass from `roots` and a sweep of the objects `xs`.
pub record Collected (s : Objects) (roots xs : List Obj) (u : Objects) : Type 0 where
  pub valid : IsValid u.heap
  pub kept : List Obj
  pub chain : Chain u u.heap_chain kept
  pub kept_iff : (o : Obj) → Memᴰ o kept ↔ (Memᴰ o xs × Reachable s roots o)
  pub flags_kept : (o : Obj) → Memᴰ o xs → Reachable s roots o → flags_word u o ≡ flags_word s o
  pub data_kept :
      (o : Obj) → Memᴰ o xs → (i : ℕ) → i < data_len s o → data_word u o i ≡ data_word s o i
  pub gone : (o : Obj) → Memᴰ o xs → ¬ Reachable s roots o → is_freed u o ≡ true
  pub reusable :
      (o : Obj) → Memᴰ o xs → ¬ Reachable s roots o → Memᴰ o (bucket u.free (sweep_key s o))

Marks-Chain :
    {s t : Objects} {objs : List Obj}
    → IsTraced s objs
    → Marks s objs t
    → (xs : List Obj) (at : Obj) → ((o : Obj) → Memᴰ o xs → Memᴰ o objs)
    → Chain s at xs
    → Chain t at xs
Marks-Chain a m [] at within c = c
Marks-Chain a m (o ∷ xs) at within (e, p, apart, c) = (
  e,
  IsPlace_grow p (omega (arith, m.size)),
  apart,
  rw (Marks-chain_next a m (within o (Memᴰ.head refl)))
      (Marks-Chain a m xs (chain_next _ o) (λ q h. within q (Memᴰ.tail h)) c),
)

meta_count_low : (w : ℕ) → meta_count w ≡ meta_count (w % 2 ^ 63)
meta_count_low w = both w ∙ sym (both (w % 2 ^ 63) ∙ omega arith)
  where
    both : (v : ℕ) → meta_count v ≡ v / 2 ^ 56 % 64
    both v =
        let split : v / 2 ^ 56 ≡ v / 2 ^ 56 / 2 ^ 6 * 2 ^ 6 + v / 2 ^ 56 % 2 ^ 6 = omega arith in
        ap (λ x. bit_and x 63) split
        ∙ bit_and_mask 6 (v / 2 ^ 56 / 2 ^ 6) (v / 2 ^ 56 % 2 ^ 6) (omega arith)

Marks-sweep_key :
    {s t : Objects} {objs : List Obj}
    → IsTraced s objs
    → Marks s objs t
    → {o : Obj} → Memᴰ o objs
    → sweep_key t o ≡ sweep_key s o
unfolding sweep_key
Marks-sweep_key {s} {t} a m {o} h =
    ap₂ (λ n k. bit_or (n * 2 ^ 8 % 2 ^ 64) k) (Marks-data_len a m h)
      (meta_count_low (flags_word t o)
        ∙ ap meta_count (Marks-flags_word a m o)
        ∙ sym (meta_count_low (flags_word s o)))

module _ {s t : Objects} {xs : List Obj} (a : IsTraced s xs) (m : Marks s xs t) (u : Objects) where
  kept_flags :
      (o : Obj)
      → Memᴰ o xs
      → is_marked t o ≡ true
      → flags_word u o ≡ swept_flags (is_marked t) o (flags_word t o)
      → flags_word u o ≡ flags_word s o
  kept_flags o h marked e =
      let p = a.place h in
      let low : flags_word s o < 2 ^ 63 =
        ground (
          arith,
          is_marked_top s o (flags_word-IsWord s a.valid (IsPlace-header p)),
          a.unmarked h,
        ) in
      e ∙ rw marked (omega (arith, Marks-flags_word a m o))

  freed_flags :
      (o : Obj)
      → is_marked t o ≡ false
      → flags_word u o ≡ swept_flags (is_marked t) o (flags_word t o)
      → is_freed u o ≡ true
  freed_flags o off e =
      let stamped : flags_word u o ≡ freed_word = e ∙ rw off refl in
      unfold is_freed in rw stamped refl

  -- A data word lies outside every header.
  kept_data :
      IsValid u.heap
      → words_len u.heap ≡ words_len t.heap
      → ((i : ℕ)
          → All (λ o. (i < word_index o) ⊎ (word_index o + meta_len ≤ i)) xs
          → at_index u.heap i ≡ at_index t.heap i)
      → (o : Obj) → Memᴰ o xs
      → (i : ℕ) → i < data_len s o
      → data_word u o i ≡ data_word s o i
  kept_data valid size unmoved o h i small =
      let place = Marks-place a m h in
      data_word-at_index u valid (IsPlace_grow place (omega arith)) i small
      ∙ unmoved (word_index o + (meta_len + i)) (
          Memᴰ-All _ xs (λ p hp. elim (a.apart h hp) [
            | inl same ↦
                let at : word_index o ≡ word_index p = ap word_index same in inr (omega arith)
            | inr (inl before) ↦ inl (omega arith)
            | inr (inr after) ↦ inr (omega arith)
          ]))
      ∙ sym (data_word-at_index t m.valid place i small)
      ∙ Marks-data_word a m h i small

-- A mark pass and the sweep after it, on an allocation chain whose objects share no word, none of
-- them marked, without poisoning and with a live count that covers the chain, from roots that are
-- objects of the chain where they are objects at all: with fuel for both, both return. The chain
-- that is left holds just the objects that the roots lead to, their flags words as before; the data
-- of every object is as before; every object that the roots do not lead to is stamped freed and
-- stands on the free list under its sizes; and the live count falls by the count freed.
pub mark-sweep :
    (xs roots : List Obj) (fuel left : ℕ) (s : Objects)
    → IsTraced s xs
    → Chain s s.heap_chain xs
    → ((w : Obj) → Memᴰ w roots → is_object s w ≡ true → Memᴰ w xs)
    → s.poison_freed ≡ false
    → length roots + work s s xs ≤ fuel
    → length xs ≤ left
    → length xs ≤ s.live
    → IsWord s.live
    → (t u : Objects) × (freed : ℕ) × (mark fuel roots s ≡ some t)
      × (sweep left t ≡ some (u, freed))
      × (u.live ≡ s.live - freed)
      × Collected s roots xs u
mark-sweep xs roots fuel left s a c start clean enough enough' held small =
    let (t, run, m, reach) = mark-Reachable xs roots fuel s a start enough in
    let clean' : t.poison_freed ≡ false = ap (λ (r : Objects). r.poison_freed) m.others ∙ clean in
    let same_live : t.live ≡ s.live = ap (λ (r : Objects). r.live) m.others in
    let same_head : t.heap_chain ≡ s.heap_chain = ap (λ (r : Objects). r.heap_chain) m.others in
    let chain' : Chain t t.heap_chain xs =
      rw same_head (Marks-Chain a m xs s.heap_chain (λ o h. h) c) in
    let (u, run', valid, size, chain, live, flagged, free, unmoved) =
      sweep-Swept xs left t m.valid clean' chain' enough' (omega (arith, same_live))
        (omega (arith, same_live)) in
    let off : (o : Obj) → Memᴰ o xs → ¬ Reachable s roots o → is_marked t o ≡ false = λ o h no.
      elim (Bool-cases (is_marked t o)) [ inl e ↦ absurd (no ((reach o h).0 e)) | inr e ↦ e ] in
    let flag : (o : Obj)
        → Memᴰ o xs
        → flags_word u o ≡ swept_flags (is_marked t) o (flags_word t o) =
      λ o h. All-Memᴰ _ xs flagged h in
    (
      t,
      u,
      dead (is_marked t) xs,
      run,
      run',
      live ∙ ap (λ n. n - dead (is_marked t) xs) same_live,
      record {
        valid = valid;
        kept = kept_onto (is_marked t) xs [];
        chain = chain;
        kept_iff = λ o. (
          λ h. elim (kept_marked (is_marked t) xs [] h) [
            | inl (z, e) ↦ (z, (reach o z).0 e)
            | inr z ↦ absurd (Memᴰ.not-nil z)
          ],
          λ (h, r). marked_kept (is_marked t) xs [] ((reach o h).1 r) h,
        );
        flags_kept = λ o h r. kept_flags a m u o h ((reach o h).1 r) (flag o h);
        data_kept = kept_data a m u valid size unmoved;
        gone = λ o h no. freed_flags a m u o (off o h no) (flag o h);
        reusable = λ o h no. rw free (
            rw (Marks-sweep_key a m h) at
              (unmarked_released (is_marked t) (sweep_key t) xs t.free (off o h no) h));
      },
    )
