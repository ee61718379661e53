-- ===== src/Heap/Grow.antt =====
-- src/heap.rs: growth. `push`, and the zeroed run of `alloc_bytes`.
use x_engine_rust.Prelude.{
  ℕ, zero, suc, ◌+◌, ◌-◌, ◌/◌, ◌%◌, ◌≤◌, ◌<◌, max, ◌≡◌, refl, sym, ap, ◌∙◌, ◌≢◌, none, some, List,
  [], ◌∷◌, ◌++◌, arith, length, get_or, replicate, length-append, length-replicate,
  get_or-append_left, get_or-append_right,
}
use mathlib.Core.List.{append_assoc, append-nil}
use x_engine_rust.Obj.{Addr, IsWord, word_bytes, nil, word_index}
use x_engine_rust.Heap.{
  Heap, words_len, frontier, word, byte, append_word, append_zeros, alloc_bytes,
}
use x_engine_rust.Heap.Words.{IsValid, append-bounded}
use x_engine_rust.Heap.Bytes.{byte-place}
use x_engine_rust.Heap.Places.{place, below_eight}

-- `g` is `h` with the words `more` at its end.
pub record Extends (h g : Heap) (more : List ℕ) : Type 0 where
  pub words : g.words ≡ h.words ++ more
  pub capacity : g.capacity ≡ h.capacity
  pub allocations : g.allocations ≡ h.allocations

pub append_zeros-replicate : (k : ℕ) (h : Heap) → Extends h (append_zeros k h) (replicate k 0)
unfolding append_zeros
append_zeros-replicate zero h = record {
  words = sym (append-nil h.words);
  capacity = refl;
  allocations = refl;
}
append_zeros-replicate (suc k) h =
    let ih = append_zeros-replicate k (append_word h 0) in
    record {
      words = ih.words ∙ append_assoc h.words (0 ∷ []) (replicate k 0);
      capacity = ih.capacity;
      allocations = ih.allocations;
    }

pub replicate-bounded : (k i : ℕ) → IsWord (get_or (replicate k 0) i 0)
replicate-bounded zero i = omega arith
replicate-bounded (suc k) zero = omega arith
replicate-bounded (suc k) (suc i) = replicate-bounded k i

pub replicate-zero : (k i : ℕ) → get_or {A = ℕ} (replicate k 0) i 0 ≡ 0
replicate-zero zero i = refl
replicate-zero (suc k) zero = refl
replicate-zero (suc k) (suc i) = replicate-zero k i

module _ {h g : Heap} {more : List ℕ} (e : Extends h g more) where
  pub words_len-Extends : words_len g ≡ words_len h + length more
  words_len-Extends = ap length e.words ∙ length-append h.words more

  pub Extends-IsValid :
      IsValid h
      → ((i : ℕ) → IsWord (get_or more i 0))
      → words_len h + length more ≤ h.capacity
      → IsValid g
  Extends-IsValid ok b room = record {
    reserved = omega (arith, words_len-Extends, ok.reserved);
    within = omega (arith, words_len-Extends, e.capacity);
    small = rw e.capacity ok.small;
    bounded = λ i. rw e.words (append-bounded h.words more i ok.bounded b);
  }

  -- The words that were there are unchanged.
  pub word-Extends : (b : ℕ) → word_index b < words_len h → word g b ≡ word h b
  unfolding word
  word-Extends b old =
      ap (λ ws. get_or ws (b / 8) 0) e.words ∙ get_or-append_left h.words more (b / 8) 0 old

  -- A new word is the one that was appended.
  pub word-Extends_new : (b i : ℕ) → word_index b ≡ words_len h + i → word g b ≡ get_or more i 0
  unfolding word
  word-Extends_new b i at =
      ap (λ ws. get_or ws (b / 8) 0) e.words
      ∙ ap (λ k. get_or (h.words ++ more) k 0) at
      ∙ get_or-append_right h.words more i 0

  pub byte-Extends : (b : ℕ) → IsWord b → word_index b < words_len h → byte g b ≡ byte h b
  byte-Extends b p old =
      byte-place g b p ∙ ap (λ w. place w (b % 8)) (word-Extends b old) ∙ sym (byte-place h b p)

zero_place : (i : ℕ) → i < 8 → place 0 i ≡ 0
zero_place = below_eight (λ i. place 0 i ≡ 0) refl refl refl refl refl refl refl refl

-- A run is handed out at the frontier, never at nil; it has room for `n` bytes, which read 0; the
-- bytes below it are as they were; and the arena stays valid.
pub record IsFresh (h : Heap) (n : ℕ) (at : Addr) (g : Heap) : Type 0 where
  pub start : at ≡ frontier h
  pub ne_nil : at ≢ nil
  pub room : at + n ≤ frontier g
  pub valid : IsValid g
  pub kept : (b : ℕ) → b < at → byte g b ≡ byte h b
  pub zeroed : (b : ℕ) → IsWord b → at ≤ b → byte g b ≡ 0

abbrev run_words : ℕ → ℕ
run_words n = max ((n + (word_bytes - 1)) / word_bytes) 1

run-IsFresh :
    {h : Heap}
    → IsValid h
    → (n : ℕ) → words_len h + (n / word_bytes + 2) ≤ h.capacity
    → IsFresh h n (frontier h) (append_zeros (run_words n) h)
run-IsFresh {h} ok n fits = record {
  start = refl;
  ne_nil = omega (arith, ok.reserved);
  room = omega (arith, len);
  valid = Extends-IsValid e ok (replicate-bounded (run_words n)) (omega (arith, count));
  kept = λ b below. byte-Extends e b (omega (arith, ok.within, ok.small)) (omega arith);
  zeroed = λ b p above.
      byte-place (append_zeros (run_words n) h) b p
      ∙ ap (λ w. place w (b % 8))
          (word-Extends_new e b (b / 8 - words_len h) (omega arith)
            ∙ replicate-zero (run_words n) (b / 8 - words_len h))
      ∙ zero_place (b % 8) (omega arith);
}
  where
    e : Extends h (append_zeros (run_words n) h) (replicate (run_words n) 0)
    e = append_zeros-replicate (run_words n) h

    count : length {A = ℕ} (replicate (run_words n) 0) ≡ run_words n
    count = length-replicate (run_words n) 0

    len : words_len (append_zeros (run_words n) h) ≡ words_len h + run_words n
    len = words_len-Extends e ∙ ap (λ k. words_len h + k) count

-- In a valid arena with room in the reservation `alloc_bytes` answers the frontier, which is not
-- nil, and a valid arena with room for the run, in which every byte below the frontier is as it
-- was and every other byte is zero.
pub alloc_bytes-IsFresh :
    {h : Heap}
    → IsValid h
    → (n : ℕ) → words_len h + (n / word_bytes + 2) ≤ h.capacity
    → (g : Heap) × (alloc_bytes h n ≡ some (frontier h, g)) × IsFresh h n (frontier h) g
alloc_bytes-IsFresh {h} ok n fits =
    (append_zeros (run_words n) h, unfold alloc_bytes in ground arith, run-IsFresh ok n fits)

-- Past the reservation it panics.
pub alloc_bytes_exhausted :
    (h : Heap) (n : ℕ) → h.capacity < words_len h + (n / word_bytes + 2) → alloc_bytes h n ≡ none
unfolding alloc_bytes
alloc_bytes_exhausted h n over = ground arith
