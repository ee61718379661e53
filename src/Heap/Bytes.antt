-- ===== src/Heap/Bytes.antt =====
-- src/heap.rs: a byte write is a masked write of its word; here it is an assignment to one byte of
-- a sequence of bytes.
use x_engine_rust.Prelude.{
  ℕ, ◌*◌, ◌/◌, ◌%◌, ◌^◌, ◌≤◌, ◌<◌, ◌≡◌, refl, sym, ap, ◌∙◌, inl, inr, true, false, arith, ltb, ◌==◌,
  if◌then◌else◌, ==_iff, Bool-cases, get_or, set,
}
use x_engine_rust.Obj.{IsWord, word_index, byte_in_word, word_base}
use x_engine_rust.Obj.Laws.{word_base_lem}
use x_engine_rust.Heap.{Heap, words_len, word, set_word, byte, set_byte}
use x_engine_rust.Heap.Words.{
  IsValid, words_len-set_word, capacity-set_word, word-IsWord, set_word-IsValid, word-set_word,
  word_beyond, set_word_beyond,
}
use x_engine_rust.Heap.Places.{place, put, bit_and_byte, place-put, put-IsWord, below_eight}

base_index : (at : ℕ) → IsWord at → word_index (word_base at) ≡ word_index at
base_index at h = rw (word_base_lem at h) (omega arith)

word-base : (h : Heap) (at : ℕ) → IsWord at → word h (word_base at) ≡ word h at
unfolding word
word-base h at p = ap (λ t. get_or h.words t 0) (base_index at p)

pub byte-place : (h : Heap) (at : ℕ) → IsWord at → byte h at ≡ place (word h at) (byte_in_word at)
unfolding byte
byte-place h at p =
    bit_and_byte (word h (word_base at) / 2 ^ (8 * (at % 8)))
    ∙ ap (λ w. place w (at % 8)) (word-base h at p)

pub byte-lt : (h : Heap) (at : ℕ) → byte h at < 256
unfolding byte
byte-lt h at = rw (bit_and_byte (word h (word_base at) / 2 ^ (8 * (at % 8)))) (omega arith)

pub set_byte-put :
    (h : Heap) (at v : ℕ)
    → IsWord at
    → set_byte h at v ≡ set_word h at (put (word h at) (byte_in_word at) v)
unfolding set_byte
set_byte-put h at v p =
    ap (λ w. set_word h (word_base at) (put w (at % 8) v)) (word-base h at p)
    ∙ unfold set_word in
      ap
        (λ i.
          if ltb i (words_len h)
          then record h { words = set h.words i (put (word h at) (at % 8) v) }
          else h)
        (base_index at p)

pub set_byte-IsValid :
    {h : Heap} → IsValid h → (at v : ℕ) → IsWord at → v < 256 → IsValid (set_byte h at v)
set_byte-IsValid {h} ok at v p q = rw (set_byte-put h at v p) (
    set_word-IsValid ok at (put (word h at) (at % 8) v)
      (put-IsWord (word h at) v (word-IsWord ok at) q (at % 8) (omega arith)))

pub words_len-set_byte : (h : Heap) (at v : ℕ) → words_len (set_byte h at v) ≡ words_len h
unfolding set_byte
words_len-set_byte h at v = words_len-set_word h (word_base at) _

pub capacity-set_byte : (h : Heap) (at v : ℕ) → (set_byte h at v).capacity ≡ h.capacity
unfolding set_byte
capacity-set_byte h at v = capacity-set_word h (word_base at) _

same_address : (a b : ℕ) → (a / 8 == b / 8) ≡ true → (a % 8 == b % 8) ≡ (a == b)
same_address a b e = ground arith

other_address : (a b : ℕ) → (a / 8 == b / 8) ≡ false → (a == b) ≡ false
other_address a b e = ground arith

-- Inside a valid arena a byte that is written reads back, and every other byte is as it was, those
-- of the same word too.
pub byte-set_byte :
    {h : Heap}
    → IsValid h
    → (at b v : ℕ) → IsWord at
    → IsWord b
    → v < 256
    → word_index at < words_len h
    → byte (set_byte h at v) b ≡ (if b == at then v else byte h b)
byte-set_byte {h} ok at b v p q small inside =
    byte-place (set_byte h at v) b q
    ∙ ap (λ g. place (word g b) (b % 8)) (set_byte-put h at v p)
    ∙ ap (λ w. place w (b % 8)) (word-set_word h at b (put (word h at) (at % 8) v) inside)
    ∙ split
  where
    split :
        place (if b / 8 == at / 8 then put (word h at) (at % 8) v else word h b) (b % 8)
        ≡ (if b == at then v else byte h b)
    split = elim (Bool-cases (b / 8 == at / 8)) [
      | inl e ↦ rw e (
          place-put (word h at) v (word-IsWord ok at) small (at % 8) (omega arith) (b % 8)
            (omega arith)
          ∙ rw (same_address b at e) (
              ap (λ t. if b == at then v else t)
                (ap (λ w. place w (b % 8)) (same_word e) ∙ sym (byte-place h b q))))
      | inr e ↦ rw (e, other_address b at e) (sym (byte-place h b q))
    ]
      where
        same_word : (b / 8 == at / 8) ≡ true → word h at ≡ word h b
        same_word e =
            unfold word in ap (λ i. get_or h.words i 0) (sym ((==_iff (b / 8) (at / 8)).0 e))

-- A read past the arena answers zero.
pub byte_beyond : (h : Heap) (at : ℕ) → IsWord at → words_len h ≤ word_index at → byte h at ≡ 0
byte_beyond h at p out =
    byte-place h at p
    ∙ rw (word_beyond h at out) (
        below_eight (λ i. place 0 i ≡ 0) refl refl refl refl refl refl refl refl (at % 8)
          (omega arith))

-- A write past the arena is dropped.
pub set_byte_beyond :
    (h : Heap) (at v : ℕ) → IsWord at → words_len h ≤ word_index at → set_byte h at v ≡ h
set_byte_beyond h at v p out = set_byte-put h at v p ∙ set_word_beyond h at _ out
