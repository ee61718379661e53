-- ===== src/Objects/Exhausted.antt =====
-- src/objects.rs: `alloc` in every case. The reservation bounds what the growth branch may append.
use x_engine_rust.Prelude.{
  ℕ, zero, suc, ◌+◌, ◌^◌, ◌≤◌, ◌<◌, ◌≡◌, refl, sym, ap, ◌∙◌, ◌↔◌, ◌⊎◌, inl, inr, false, Option,
  none, some, List, [], ◌∷◌, arith, leb, ◌>>=◌, Bool-cases,
}
use x_engine_rust.Obj.{Obj, IsWord}
use x_engine_rust.Heap.{Heap, words_len, append_word, push, append_zeros}
use x_engine_rust.Objects.{
  Objects, bucket, meta_extra, free_key, push_zeros, grow, lay_out, meta_len,
}
use x_engine_rust.Objects.Layout.{IsKind, stored_flags}
use x_engine_rust.Objects.Grown.{
  push-append_word, push_zeros-append_zeros, words_len-append_zeros, capacity-append_zeros,
  words_len-append_word,
}
use x_engine_rust.Objects.FreeList.{IsReady, lay_out-grow, reuse_outcome, grow_outcome}
use mathlib.Core.Option.{some-injective}

push-none : (h : Heap) (v : ℕ) → h.capacity < words_len h + 1 → push h v ≡ none
unfolding push
push-none h v full =
    let off : leb (words_len h + 1) h.capacity ≡ false = ground arith in rw off refl

push-cases :
    (h : Heap) (v : ℕ)
    → ((push h v ≡ none) × (h.capacity < words_len h + 1))
      ⊎ ((push h v ≡ some (append_word h v)) × (words_len h + 1 ≤ h.capacity))
push-cases h v = elim (Bool-cases (leb (words_len h + 1) h.capacity)) [
  | inl e ↦ inr (push-append_word h v (ground arith), ground arith)
  | inr e ↦ inl (push-none h v (ground arith), ground arith)
]

push_zeros-none :
    (k : ℕ) (h : Heap)
    → words_len h ≤ h.capacity
    → h.capacity < words_len h + k
    → push_zeros k h ≡ none
unfolding push_zeros
push_zeros-none zero h within full = absurd (omega arith)
push_zeros-none (suc k) h within full = elim (push-cases h 0) [
  | inl (e, out) ↦ rw e refl
  | inr (e, room) ↦ rw e (
      push_zeros-none k (append_word h 0) (omega (arith, words_len-append_word h 0))
        (omega (arith, words_len-append_word h 0)))
]

-- A step that does not find room ends the run; what follows one that does must.
push_then :
    (h : Heap) (v : ℕ) (more : Heap → Option (Obj × Objects))
    → (words_len h + 1 ≤ h.capacity → more (append_word h v) ≡ none)
    → (push h v >>= more) ≡ none
push_then h v more k = elim (push-cases h v) [
  | inl (e, out) ↦ rw e refl
  | inr (e, room) ↦ rw e (k room)
]

zeros_then :
    (k : ℕ) (h : Heap) (more : Heap → Option (Obj × Objects))
    → words_len h ≤ h.capacity
    → (words_len h + k ≤ h.capacity → more (append_zeros k h) ≡ none)
    → (push_zeros k h >>= more) ≡ none
zeros_then k h more within next = elim (Bool-cases (leb (words_len h + k) h.capacity)) [
  | inl e ↦
      let room : words_len h + k ≤ h.capacity = ground arith in
      rw (push_zeros-append_zeros k h room) (next room)
  | inr e ↦ rw (push_zeros-none k h within (ground arith)) refl
]

grow-none :
    (s : Objects) (ty f n extra : ℕ)
    → words_len s.heap ≤ s.heap.capacity
    → s.heap.capacity < words_len s.heap + (extra + (meta_len + n))
    → grow s ty f n extra ≡ none
unfolding grow
grow-none s ty f n extra within full =
    let h0 = append_zeros extra s.heap in
    let l0 = words_len-append_zeros extra s.heap in
    let c0 = capacity-append_zeros extra s.heap in
    let h1 = append_word h0 s.heap_chain in
    let h2 = append_word h1 ty in
    let h3 = append_word h2 (stored_flags f extra) in
    let l1 = words_len-append_word h0 s.heap_chain in
    let l2 = words_len-append_word h1 ty in
    let l3 = words_len-append_word h2 (stored_flags f extra) in
    let l4 = words_len-append_word h3 n in
    zeros_then extra s.heap _ within (λ r0. push_then h0 s.heap_chain _ (λ r1.
      push_then h1 ty _ (λ r2. push_then h2 (stored_flags f extra) _ (λ r3.
        push_then h3 n _
          (λ r4. zeros_then n (append_word h3 n) _ (omega arith) (λ r5. absurd (omega arith)))))))

-- With a ready state, a kind that leaves the meta bit and the top byte free and a type that is a
-- word, the allocation of `n` data words (below 2 ^ 40) fails in just one case: no swept object of
-- the size is on the free list, and the meta words, the header and the data do not fit in the
-- reservation.
pub lay_out-none :
    (s : Objects) (ty f n : ℕ)
    → IsReady s
    → IsKind f
    → IsWord ty
    → n < 2 ^ 40
    → (lay_out s ty f n ≡ none) ↔ (
        (bucket s.free (free_key n (meta_extra s)) ≡ [])
        × (s.heap.capacity < words_len s.heap + (meta_extra s + (meta_len + n))))
lay_out-none s ty f n r k wty small =
    (forward (bucket s.free (free_key n (meta_extra s))) refl, backward)
  where
    differ :
        (o : Obj) (t : Objects)
        → lay_out s ty f n ≡ some (o, t)
        → lay_out s ty f n ≡ none
        → (bucket s.free (free_key n (meta_extra s)) ≡ [])
          × (s.heap.capacity < words_len s.heap + (meta_extra s + (meta_len + n)))
    differ o t q e = cc

    forward :
        (objs : List Obj)
        → bucket s.free (free_key n (meta_extra s)) ≡ objs
        → lay_out s ty f n ≡ none
        → (bucket s.free (free_key n (meta_extra s)) ≡ [])
          × (s.heap.capacity < words_len s.heap + (meta_extra s + (meta_len + n)))
    forward [] e failed =
        elim (Bool-cases
          (leb (words_len s.heap + (meta_extra s + (meta_len + n))) s.heap.capacity)) [
            | inl room ↦
                let (o, t, q, a, ready, from) = grow_outcome s ty f n r k wty (ground arith) e in
                differ o t q failed
            | inr full ↦ (e, ground arith)
          ]
    forward (o ∷ objs) e failed =
        let (t, q, a, ready, from) = reuse_outcome s ty f n o objs r k wty small e in
        differ o t q failed

    backward :
        (bucket s.free (free_key n (meta_extra s)) ≡ [])
          × (s.heap.capacity < words_len s.heap + (meta_extra s + (meta_len + n)))
        → lay_out s ty f n ≡ none
    backward (e, full) =
        lay_out-grow s ty f n r.reuses e ∙ grow-none s ty f n (meta_extra s) r.valid.within full

-- With a ready state, a kind that leaves the meta bit and the top byte free and a type that is a
-- word, whatever an allocation of `n` data words (below 2 ^ 40) answers is ready for the next one,
-- in an arena whose reservation is the same and which has grown by no more than the object with
-- its meta words.
pub lay_out-IsReady :
    (s : Objects) (ty f n : ℕ) (o : Obj) (t : Objects)
    → IsReady s
    → IsKind f
    → IsWord ty
    → n < 2 ^ 40
    → lay_out s ty f n ≡ some (o, t)
    → IsReady t
      × (t.heap.capacity ≡ s.heap.capacity)
      × (words_len s.heap ≤ words_len t.heap)
      × (words_len t.heap ≤ words_len s.heap + (meta_extra s + (meta_len + n)))
lay_out-IsReady s ty f n o t r k wty small q = go (bucket s.free (free_key n (meta_extra s))) refl
  where
    Kept : Objects → Type 0
    Kept u =
        IsReady u
        × (u.heap.capacity ≡ s.heap.capacity)
        × (words_len s.heap ≤ words_len u.heap)
        × (words_len u.heap ≤ words_len s.heap + (meta_extra s + (meta_len + n)))

    same : (p : Obj) (u : Objects) → lay_out s ty f n ≡ some (p, u) → Kept u → Kept t
    same p u e kept =
        let one : t ≡ u =
          ap (λ (v : Obj × Objects). v.1) (some-injective (o, t) (p, u) (sym q ∙ e)) in
        rw one kept

    go : (objs : List Obj) → bucket s.free (free_key n (meta_extra s)) ≡ objs → Kept t
    go [] e =
        elim (Bool-cases
          (leb (words_len s.heap + (meta_extra s + (meta_len + n))) s.heap.capacity)) [
            | inl room ↦
                let (p, u, d, a, ready, from) = grow_outcome s ty f n r k wty (ground arith) e in
                same p u d (ready, a.capacity, a.longer, a.at_most)
            | inr full ↦
                let failed =
                  lay_out-grow s ty f n r.reuses e
                  ∙ grow-none s ty f n (meta_extra s) r.valid.within (ground arith) in
                cc
          ]
    go (p ∷ objs) e =
        let (u, d, a, ready, from) = reuse_outcome s ty f n p objs r k wty small e in
        same p u d (ready, a.capacity, a.longer, a.at_most)
