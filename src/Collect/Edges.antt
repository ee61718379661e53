-- ===== src/Collect/Edges.antt =====
-- src/collect.rs: the graph that `mark` follows. A word is an object when `mark` would mark it, and
-- an object leads to its type word and to the data words that its kind makes references.
use x_engine_rust.Prelude.{
  ℕ, zero, suc, ◌+◌, ◌-◌, ◌*◌, ◌/◌, ◌%◌, ◌^◌, ◌≤◌, ◌<◌, bit_and, ◌≡◌, refl, sym, ap, ap₂, ◌∙◌, inl,
  inr, Bool, true, false, not, ◌&&◌, ◌||◌, List, [], ◌∷◌, arith, ◌==◌, if◌then◌else◌, Bool-cases,
  length,
}
use mathlib.Core.List.{Memᴰ}
use x_engine_rust.Prelude.Bits.{bit_and_block, bit_and_le, bit_and_low}
use x_engine_rust.Obj.{Obj, Flags, bit_not}
use x_engine_rust.Heap.{words_len}
use x_engine_rust.Objects.{
  Objects, flags_word, kind_bits, type_of_word, data_word, data_len, flag_meta_bit, flag_magic_bit,
}
use x_engine_rust.Objects.Kinds.{
  flag_pair, flag_spair, flag_iter, flag_fn, flag_op, flag_wrap, flag_env, flag_envh, flag_false,
  flag_buf, flag_bufmarks,
}
use x_engine_rust.Collect.{plausible, extent_ok, data_words, keep_plausible, children}

-- The count of data words that the mark pass takes an object of a kind and length to have.
abbrev pub span : Flags → ℕ → ℕ
span f n =
    if f == flag_pair || f == flag_spair || f == flag_iter
    then 2
    else if f == flag_fn || f == flag_op || f == flag_wrap
    then 2
    else if f == flag_env
    then 1
    else if f == flag_envh
    then 3
    else if f == flag_false
    then n
    else if f == flag_buf
    then 3
    else if f == flag_bufmarks
    then 0
    else if f == 0
    then n
    else 0

-- The tests of `mark` on a word that it pops, apart from the mark itself.
unfoldable pub is_object : Objects → ℕ → Bool
unfolding plausible flags_word
is_object s w = plausible s w && not (bit_and (flags_word s w) flag_magic_bit == 0)

abbrev pub edges : Objects → Obj → List Obj
edges s o = type_of_word s o ∷ children s o (kind_bits (flags_word s o)) (data_len s o)

-- What the roots lead to.
pub data Reachable (s : Objects) (roots : List Obj) : Obj → Type 0 where
  root : {w : Obj} → Memᴰ w roots → is_object s w ≡ true → Reachable s roots w
  edge :
      {o w : Obj}
      → Reachable s roots o
      → Memᴰ w (edges s o)
      → is_object s w ≡ true
      → Reachable s roots w

data_words_same :
    (s t : Objects) (o : Obj) (k i n : ℕ)
    → i + k ≤ n
    → ((j : ℕ) → j < n → data_word t o j ≡ data_word s o j)
    → data_words t o k i ≡ data_words s o k i
unfolding data_words
data_words_same s t o zero i n small same = refl
data_words_same s t o (suc k) i n small same =
    ap₂ (λ x xs. x ∷ xs) (same i (omega arith))
      (data_words_same s t o k (i + 1) n (omega arith) same)

pub plausible_same :
    (s t : Objects) (w : ℕ) → words_len t.heap ≡ words_len s.heap → plausible t w ≡ plausible s w
unfolding plausible
plausible_same s t w e = rw e refl

keep_plausible_same :
    (s t : Objects) (ws : List ℕ)
    → words_len t.heap ≡ words_len s.heap
    → keep_plausible t ws ≡ keep_plausible s ws
unfolding keep_plausible
keep_plausible_same s t [] e = refl
keep_plausible_same s t (w ∷ ws) e = rw (plausible_same s t w e, keep_plausible_same s t ws e) refl

extent_ok_same :
    (s t : Objects) (o : Obj) (n : ℕ)
    → words_len t.heap ≡ words_len s.heap
    → extent_ok t o n ≡ extent_ok s o n
unfolding extent_ok
extent_ok_same s t o n e = rw e refl

length-data_words : (s : Objects) (o : Obj) (k i : ℕ) → length (data_words s o k i) ≡ k
unfolding data_words
length-data_words s o zero i = refl
length-data_words s o (suc k) i = ap suc (length-data_words s o k (i + 1))

length-keep_plausible : (s : Objects) (ws : List ℕ) → length (keep_plausible s ws) ≤ length ws
unfolding keep_plausible
length-keep_plausible s [] = omega arith
length-keep_plausible s (w ∷ ws) =
    let ih = length-keep_plausible s ws in
    elim (Bool-cases (plausible s w)) [ inl e ↦ rw e (omega arith) | inr e ↦ rw e (omega arith) ]

-- Two answers for a kind that takes `k` data words, of an object that has `n`.
abbrev Agree : ℕ → ℕ → List Obj → List Obj → Type 0
Agree n k xs ys = k ≤ n → (xs ≡ ys) × (length ys ≤ n)

branch :
    (n : ℕ) (b : Bool) {k l : ℕ} {xs ys zs ws : List Obj}
    → Agree n k xs ys
    → Agree n l zs ws
    → Agree n (if b then k else l) (if b then xs else zs) (if b then ys else ws)
branch n true p q = p
branch n false p q = q

guarded :
    (n : ℕ) (b : Bool) {xs ys : List Obj}
    → Agree n n xs ys
    → Agree n n (if b then xs else []) (if b then ys else [])
guarded n true a = a
guarded n false a = λ room. (refl, omega arith)

-- What an object leads to depends on its header and its data alone, and is no more than its data.
pub children_same :
    (s t : Objects) (o : Obj) (f n : ℕ)
    → span f n ≤ n
    → words_len t.heap ≡ words_len s.heap
    → ((j : ℕ) → j < n → data_word t o j ≡ data_word s o j)
    → (children t o f n ≡ children s o f n) × (length (children s o f n) ≤ n)
unfolding children
children_same s t o f n small size same =
    branch n (f == flag_pair || f == flag_spair || f == flag_iter) (some_words 2 0 2 (omega arith))
      (branch n (f == flag_fn || f == flag_op || f == flag_wrap) (some_words 1 1 2 (omega arith)) (
        branch n (f == flag_env) (some_words 1 0 1 (omega arith)) (
          branch n (f == flag_envh) (some_words 3 0 3 (omega arith)) (
            branch n (f == flag_false) (bounded (some_words n 0 n (omega arith))) (
              branch n (f == flag_buf) (some_words 2 1 3 (omega arith))
                (branch n (f == flag_bufmarks) nothing last))))))
      small
  where
    some_words :
        (k i need : ℕ) → i + k ≤ need → Agree n need (data_words t o k i) (data_words s o k i)
    some_words k i need fit room =
        (data_words_same s t o k i n (omega arith) same, omega (arith, length-data_words s o k i))

    nothing : {k : ℕ} → Agree n k [] []
    nothing room = (refl, omega arith)

    bounded :
        {xs ys : List Obj}
        → Agree n n xs ys
        → Agree n n (if extent_ok t o n then xs else []) (if extent_ok s o n then ys else [])
    bounded {xs} {ys} a = rw (extent_ok_same s t o n size) (guarded n (extent_ok s o n) a)

    kept : Agree n n (keep_plausible t (data_words t o n 0)) (keep_plausible s (data_words s o n 0))
    kept room = (
      keep_plausible_same s t (data_words t o n 0) size
          ∙ ap (keep_plausible s) (some_words n 0 n (omega arith) room).0,
      omega (arith, length-keep_plausible s (data_words s o n 0), length-data_words s o n 0),
    )

    last :
        Agree n
          (if f == 0 then n else 0)
          (if f == 0 && extent_ok t o n then keep_plausible t (data_words t o n 0) else [])
          (if f == 0 && extent_ok s o n then keep_plausible s (data_words s o n 0) else [])
    last = elim (Bool-cases (f == 0)) [ inl e ↦ rw e (bounded kept) | inr e ↦ rw e nothing ]

-- The flags word without its mark bit decides the kind and the magic bit.
pub kind_bits_low : (w : ℕ) → kind_bits w ≡ kind_bits (w % 2 ^ 63)
kind_bits_low w =
    both w ∙ sym (both (w % 2 ^ 63) ∙ ap (λ r. bit_and (bit_and r mask) (2 ^ 56 - 1)) (omega arith))
  where
    mask : ℕ
    mask = (2 ^ 48 - 1) * 2 ^ 8 + 127

    both : (v : ℕ) → kind_bits v ≡ bit_and (bit_and (v % 2 ^ 56) mask) (2 ^ 56 - 1)
    both v =
        let split : v ≡ v / 2 ^ 56 * 2 ^ 56 + v % 2 ^ 56 = omega arith in
        let inner : bit_and v (bit_not flag_meta_bit)
            ≡ bit_and (v / 2 ^ 56) 255 * 2 ^ 56 + bit_and (v % 2 ^ 56) mask =
          ap (λ x. bit_and x (255 * 2 ^ 56 + mask)) split
          ∙ bit_and_block 56 (v / 2 ^ 56) 255 (v % 2 ^ 56) mask (omega arith) (omega arith) in
        bit_and_low 56 (bit_and v (bit_not flag_meta_bit)) (2 ^ 56 - 1) (omega arith)
          (bit_and (v / 2 ^ 56) 255) (bit_and (v % 2 ^ 56) mask)
          (omega (arith, bit_and_le (v % 2 ^ 56) mask)) inner

pub magic_low : (w : ℕ) → bit_and w flag_magic_bit ≡ bit_and (w % 2 ^ 63) flag_magic_bit
magic_low w =
    bit_and_low 63 w flag_magic_bit (omega arith) (w / 2 ^ 63) (w % 2 ^ 63) (omega arith)
      (omega arith)
