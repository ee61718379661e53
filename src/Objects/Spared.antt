-- ===== src/Objects/Spared.antt =====
-- src/objects.rs, src/collect.rs: an object that the free list spares stays as it is when another is
-- made.
use x_engine_rust.Prelude.{ℕ, ◌+◌, ◌/◌, ◌^◌, ◌≤◌, ◌<◌, ◌≡◌, ◌⊎◌, inl, inr, List, [], ◌∷◌, arith}
use mathlib.Core.List.{Memᴰ}
use mathlib.Core.List.Memᴰ
use x_engine_rust.Obj.{Obj, word_index}
use x_engine_rust.Objects.{Objects, bucket, meta_extra, free_key, meta_len}
use x_engine_rust.Objects.Header.{at_index, IsPlace}
use x_engine_rust.Objects.Alloc.{IsAllocated}
use x_engine_rust.Objects.FreeList.{All, Origin, free_key_size}

-- No object on the free list overlaps the header and the `n` data words at `p`.
pub record IsSpared (s : Objects) (p : Obj) (n : ℕ) : Type 0 where
  pub place : IsPlace s.heap p n
  pub free :
      (key : ℕ)
      → All
          (λ o.
            (word_index o + (meta_len + key / 256) ≤ word_index p)
            ⊎ (word_index p + (meta_len + n) ≤ word_index o))
          (bucket s.free key)

All-at : (P : Obj → Type 0) (xs : List Obj) {o : Obj} → All P xs → Memᴰ o xs → P o
All-at P [] a h = absurd (Memᴰ.not-nil h)
All-at P (x ∷ xs) (p, a) h = elim (Memᴰ.cases_cons h) [ inl e ↦ rw e p | inr z ↦ All-at P xs a z ]

-- A new object does not overlap what the free list spares.
pub spared_apart :
    (s : Objects) (p o m n : ℕ)
    → IsSpared s p n
    → m < 2 ^ 40
    → Origin s m o
    → (word_index o + (meta_len + m) ≤ word_index p)
      ⊎ (word_index p + (meta_len + n) ≤ word_index o)
spared_apart s p o m n sp small (inl above) = inr (omega (arith, sp.place.inside))
spared_apart s p o m n sp small (inr taken) =
    rw (free_key_size s m small) at (All-at _ _ (sp.free (free_key m (meta_extra s))) taken)

-- So every word of it is the same after the allocation.
pub spared_word :
    {s t : Objects} {o p : Obj} {ty f m n extra : ℕ}
    → IsSpared s p n
    → m < 2 ^ 40
    → Origin s m o
    → IsAllocated s ty f extra m o t
    → (k : ℕ) → k < meta_len + n
    → at_index t.heap (word_index p + k) ≡ at_index s.heap (word_index p + k)
spared_word {s} {o} {p} {m} {n} sp small from a k inside =
    a.kept (word_index p + k) (omega (arith, sp.place.inside))
      (elim (spared_apart s p o m n sp small from) [
        | inl x ↦ inr (omega arith)
        | inr x ↦ inl (omega arith)
      ])
