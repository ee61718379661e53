-- ===== src/Heap/Words.antt =====
-- src/heap.rs: what the word operations keep, and reads after writes.
use x_engine_rust.Prelude.{
  ℕ, zero, suc, ◌/◌, ◌^◌, ◌≤◌, ◌<◌, ◌≡◌, sym, inl, inr, true, List, [], ◌∷◌, ◌++◌, arith, ltb, ◌==◌,
  if◌then◌else◌, lt→ltb, le→ltb_false, ==_iff, ==_false→ne, Bool-cases, get_or, set, length-append,
  length-set, get_or-set_self, get_or-set_ne, get_or-beyond,
}
use x_engine_rust.Obj.{IsWord, word_index}
use x_engine_rust.Heap.{Heap, words_len, grow_guard, word, set_word, append_word}

-- The invariant of the arena: word 0 is reserved, the pinned reservation bounds its length, and
-- every word is a `u64`.
pub record IsValid (h : Heap) : Type 0 where
  pub reserved : 0 < words_len h
  pub within : words_len h ≤ h.capacity
  pub small : h.capacity ≤ 2 ^ 40
  pub bounded : (i : ℕ) → IsWord (get_or h.words i 0)

get_or-bounded :
    (xs : List ℕ) (i v j : ℕ)
    → ((k : ℕ) → IsWord (get_or xs k 0))
    → IsWord v
    → IsWord (get_or (set xs i v) j 0)
get_or-bounded [] i v j b w = omega arith
get_or-bounded (x ∷ xs) zero v zero b w = w
get_or-bounded (x ∷ xs) zero v (suc j) b w = b (suc j)
get_or-bounded (x ∷ xs) (suc i) v zero b w = b 0
get_or-bounded (x ∷ xs) (suc i) v (suc j) b w = get_or-bounded xs i v j (λ k. b (suc k)) w

pub append-bounded :
    (xs ys : List ℕ) (j : ℕ)
    → ((k : ℕ) → IsWord (get_or xs k 0))
    → ((k : ℕ) → IsWord (get_or ys k 0))
    → IsWord (get_or (xs ++ ys) j 0)
append-bounded [] ys j b w = w j
append-bounded (x ∷ xs) ys zero b w = b 0
append-bounded (x ∷ xs) ys (suc j) b w = append-bounded xs ys j (λ k. b (suc k)) w

pub single-bounded : (v : ℕ) → IsWord v → (k : ℕ) → IsWord (get_or (v ∷ []) k 0)
single-bounded v h zero = h
single-bounded v h (suc k) = omega arith

pub words_len-set_word : (h : Heap) (at v : ℕ) → words_len (set_word h at v) ≡ words_len h
unfolding set_word
words_len-set_word h at v = ground (arith, length-set h.words (at / 8) v)

pub capacity-set_word : (h : Heap) (at v : ℕ) → (set_word h at v).capacity ≡ h.capacity
unfolding set_word
capacity-set_word h at v = ground arith

pub word-IsWord : {h : Heap} → IsValid h → (at : ℕ) → IsWord (word h at)
unfolding word
word-IsWord v at = v.bounded (at / 8)

pub set_word-IsValid : {h : Heap} → IsValid h → (at v : ℕ) → IsWord v → IsValid (set_word h at v)
set_word-IsValid {h} ok at v w = record {
  reserved = rw (words_len-set_word h at v) ok.reserved;
  within = rw (words_len-set_word h at v, capacity-set_word h at v) ok.within;
  small = rw (capacity-set_word h at v) ok.small;
  bounded = λ i. kept i;
}
  where
    kept : (i : ℕ) → IsWord (get_or (set_word h at v).words i 0)
    kept i = elim (Bool-cases (ltb (at / 8) (words_len h))) [
      | inl e ↦ unfold set_word in rw e (get_or-bounded h.words (at / 8) v i ok.bounded w)
      | inr e ↦ unfold set_word in rw e (ok.bounded i)
    ]

pub append_word-IsValid :
    {h : Heap} → IsValid h → (v : ℕ) → IsWord v → grow_guard h 1 ≡ true → IsValid (append_word h v)
append_word-IsValid {h} ok v w room = record {
  reserved = omega (arith, length-append h.words (v ∷ []), ok);
  within = ground (arith, length-append h.words (v ∷ []));
  small = ok.small;
  bounded = λ i. append-bounded h.words (v ∷ []) i ok.bounded (single-bounded v w);
}

-- A word written inside the arena reads back; every other word is as it was.
pub word-set_word :
    (h : Heap) (at b v : ℕ)
    → word_index at < words_len h
    → word (set_word h at v) b ≡ (if word_index b == word_index at then v else word h b)
unfolding word set_word
word-set_word h at b v inside =
    rw (lt→ltb (at / 8) (words_len h) inside) (elim (Bool-cases (b / 8 == at / 8)) [
      | inl e ↦ rw (e, (==_iff (b / 8) (at / 8)).0 e) (get_or-set_self h.words (at / 8) v 0 inside)
      | inr e ↦
          rw e (
            get_or-set_ne h.words (at / 8) (b / 8) v 0
              (λ p. ==_false→ne (b / 8) (at / 8) e (sym p)))
    ])

-- A read past the arena answers zero.
pub word_beyond : (h : Heap) (at : ℕ) → words_len h ≤ word_index at → word h at ≡ 0
unfolding word
word_beyond h at out = get_or-beyond h.words (at / 8) 0 out

-- A write past the arena is dropped.
pub set_word_beyond : (h : Heap) (at v : ℕ) → words_len h ≤ word_index at → set_word h at v ≡ h
unfolding set_word
set_word_beyond h at v out = rw (le→ltb_false (at / 8) (words_len h) out)
