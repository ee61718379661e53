-- ===== src/Objects/Grown.antt =====
-- src/objects.rs: the growth branch of `alloc`. The pushes append the meta words, the header and
-- the data words at the frontier.
use x_engine_rust.Prelude.{
  ℕ, zero, suc, ◌+◌, ◌≤◌, ◌≡◌, refl, ap, ◌∙◌, some, List, [], ◌∷◌, ◌++◌, arith, le→leb, replicate,
  length-append, length-replicate,
}
use mathlib.Core.List.{append_assoc}
use x_engine_rust.Heap.{Heap, words_len, push, append_word, append_zeros, frontier}
use x_engine_rust.Heap.Grow.{Extends, append_zeros-replicate, words_len-Extends}
use x_engine_rust.Objects.{Objects, push_zeros, grow, meta_len}
use x_engine_rust.Objects.Layout.{stored_flags}

pub push-append_word :
    (h : Heap) (v : ℕ) → words_len h + 1 ≤ h.capacity → push h v ≡ some (append_word h v)
unfolding push
push-append_word h v room = rw (le→leb (words_len h + 1) h.capacity room)

pub push_zeros-append_zeros :
    (k : ℕ) (h : Heap) → words_len h + k ≤ h.capacity → push_zeros k h ≡ some (append_zeros k h)
unfolding push_zeros append_zeros
push_zeros-append_zeros zero h room = refl
push_zeros-append_zeros (suc k) h room =
    rw (push-append_word h 0 (omega arith))
      (push_zeros-append_zeros k (append_word h 0) (omega (arith, length-append h.words (0 ∷ []))))

Extends-trans :
    {h g k : Heap} {xs ys : List ℕ} → Extends h g xs → Extends g k ys → Extends h k (xs ++ ys)
Extends-trans {h} {xs} {ys} a b = record {
  words = b.words ∙ ap (λ ws. ws ++ ys) a.words ∙ append_assoc h.words xs ys;
  capacity = b.capacity ∙ a.capacity;
  allocations = b.allocations ∙ a.allocations;
}

append_word-Extends : (h : Heap) (v : ℕ) → Extends h (append_word h v) (v ∷ [])
append_word-Extends h v = record { words = refl; capacity = refl; allocations = refl }

-- The words of a fresh object: its header and its data, all nil.
abbrev pub object_words : ℕ → ℕ → ℕ → ℕ → List ℕ
object_words link ty stored n = link ∷ ty ∷ stored ∷ n ∷ replicate n 0

abbrev header_heap : Heap → ℕ → ℕ → ℕ → ℕ → Heap
header_heap h link ty stored n =
    append_word (append_word (append_word (append_word h link) ty) stored) n

abbrev pub grown_heap : Objects → ℕ → ℕ → ℕ → ℕ → Heap
grown_heap s ty f n extra =
    append_zeros n
      (header_heap (append_zeros extra s.heap) s.heap_chain ty (stored_flags f extra) n)

header-Extends :
    (h : Heap) (link ty stored n : ℕ)
    → Extends h (header_heap h link ty stored n) (link ∷ ty ∷ stored ∷ n ∷ [])
header-Extends h link ty stored n =
    Extends-trans
      (Extends-trans
        (Extends-trans (append_word-Extends h link) (append_word-Extends (append_word h link) ty))
        (append_word-Extends _ stored))
      (append_word-Extends _ n)

pub grown_heap-Extends :
    (s : Objects) (ty f n extra : ℕ)
    → Extends
        (append_zeros extra s.heap)
        (grown_heap s ty f n extra)
        (object_words s.heap_chain ty (stored_flags f extra) n)
grown_heap-Extends s ty f n extra =
    Extends-trans
      (header-Extends (append_zeros extra s.heap) s.heap_chain ty (stored_flags f extra) n)
      (append_zeros-replicate n _)

pub meta-Extends :
    (s : Objects) (extra : ℕ) → Extends s.heap (append_zeros extra s.heap) (replicate extra 0)
meta-Extends s extra = append_zeros-replicate extra s.heap

pub words_len-append_zeros : (k : ℕ) (h : Heap) → words_len (append_zeros k h) ≡ words_len h + k
words_len-append_zeros k h =
    words_len-Extends (append_zeros-replicate k h)
    ∙ ap (λ m. words_len h + m) (length-replicate k 0)

pub words_len-append_word : (h : Heap) (v : ℕ) → words_len (append_word h v) ≡ words_len h + 1
words_len-append_word h v = length-append h.words (v ∷ [])

pub capacity-append_zeros : (k : ℕ) (h : Heap) → (append_zeros k h).capacity ≡ h.capacity
capacity-append_zeros k h = (append_zeros-replicate k h).capacity

-- With room in the reservation the growth branch answers the frontier above the meta words.
pub grow-grown_heap :
    (s : Objects) (ty f n extra : ℕ)
    → words_len s.heap + (extra + (meta_len + n)) ≤ s.heap.capacity
    → grow s ty f n extra
      ≡ some (
        frontier (append_zeros extra s.heap),
        record s {
          heap = grown_heap s ty f n extra;
          heap_chain = frontier (append_zeros extra s.heap);
        },
      )
unfolding grow
grow-grown_heap s ty f n extra room =
    let z = push_zeros-append_zeros extra s.heap (omega arith) in
    let h0 = append_zeros extra s.heap in
    let l0 = words_len-append_zeros extra s.heap in
    let c0 = capacity-append_zeros extra s.heap in
    let h1 = append_word h0 s.heap_chain in
    let h2 = append_word h1 ty in
    let h3 = append_word h2 (stored_flags f extra) in
    let l1 = words_len-append_word h0 s.heap_chain in
    let l2 = words_len-append_word h1 ty in
    let l3 = words_len-append_word h2 (stored_flags f extra) in
    let l4 = words_len-append_word h3 n in
    rw
      (
        z,
        push-append_word h0 s.heap_chain (omega arith),
        push-append_word h1 ty (omega arith),
        push-append_word h2 (stored_flags f extra) (omega arith),
        push-append_word h3 n (omega arith),
        push_zeros-append_zeros n (append_word h3 n) (omega arith),
      )
      refl
