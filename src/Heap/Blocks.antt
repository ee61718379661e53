-- ===== src/Heap/Blocks.antt =====
-- src/heap.rs: `copy_bytes` and `fill_bytes`, which go byte by byte from the low end.
use x_engine_rust.Prelude.{
  ℕ, zero, suc, ◌+◌, ◌-◌, ◌^◌, ◌≤◌, ◌<◌, ◌≡◌, refl, ap, ◌∙◌, ◌⊎◌, inl, inr, Bool, true, false, ◌&&◌,
  arith, ltb, leb, ◌==◌, if◌then◌else◌, ==_iff, ne→==_false, Bool-cases,
}
use x_engine_rust.Obj.{IsWord, plus}
use x_engine_rust.Heap.{
  Heap, words_len, frontier, byte, set_byte, copy_loop, copy_bytes, fill_loop, fill_bytes,
}
use x_engine_rust.Heap.Words.{IsValid}
use x_engine_rust.Heap.Bytes.{byte-set_byte, byte-lt, set_byte-IsValid, words_len-set_byte}

abbrev pub within_run : ℕ → ℕ → ℕ → Bool
within_run at n b = leb at b && ltb b (at + n)

fill_loop_bytes :
    (dst v left i : ℕ) {h : Heap}
    → IsValid h
    → v < 256
    → dst + (i + left) ≤ frontier h
    → (b : ℕ) → IsWord b
    → byte (fill_loop dst v left i h) b ≡ (if within_run (dst + i) left b then v else byte h b)
unfolding fill_loop
fill_loop_bytes dst v zero i ok small room b p = ground arith
fill_loop_bytes dst v (suc left) i {h} ok small room b p =
    let at : dst + i < 2 ^ 64 = omega (arith, ok.within, ok.small) in
    let here : plus dst i ≡ dst + i = omega arith in
    let g = set_byte h (dst + i) v in
    let ih =
      fill_loop_bytes dst v left (i + 1) {h = g} (set_byte-IsValid ok (dst + i) v at small) small
        (omega (arith, words_len-set_byte h (dst + i) v)) b p in
    let one = byte-set_byte ok (dst + i) b v at p small (omega arith) in
    rw here (ih ∙ ground (arith, one))

-- Over a run inside a valid arena `fill_bytes` puts the byte `v` at each address of the run and
-- changes no other byte.
pub byte-fill_bytes :
    {h : Heap}
    → IsValid h
    → (dst v n : ℕ) → v < 256
    → dst + n ≤ frontier h
    → (b : ℕ) → IsWord b
    → byte (fill_bytes h dst v n) b ≡ (if within_run dst n b then v else byte h b)
unfolding fill_bytes
byte-fill_bytes ok dst v n small room b p =
    fill_loop_bytes dst v n 0 ok small (omega arith) b p ∙ ground arith

fill_loop-IsValid :
    (dst v left i : ℕ) {h : Heap} → IsValid h → v < 256 → IsValid (fill_loop dst v left i h)
unfolding fill_loop
fill_loop-IsValid dst v zero i ok small = ok
fill_loop-IsValid dst v (suc left) i ok small =
    fill_loop-IsValid dst v left (i + 1) (set_byte-IsValid ok (plus dst i) v (omega arith) small)
      small

fill_loop_size : (dst v left i : ℕ) (h : Heap) → words_len (fill_loop dst v left i h) ≡ words_len h
unfolding fill_loop
fill_loop_size dst v zero i h = refl
fill_loop_size dst v (suc left) i h =
    fill_loop_size dst v left (i + 1) (set_byte h (plus dst i) v)
    ∙ words_len-set_byte h (plus dst i) v

pub fill_bytes-IsValid :
    {h : Heap} → IsValid h → (dst v n : ℕ) → v < 256 → IsValid (fill_bytes h dst v n)
unfolding fill_bytes
fill_bytes-IsValid ok dst v n small = fill_loop-IsValid dst v n 0 ok small

pub words_len-fill_bytes : (h : Heap) (dst v n : ℕ) → words_len (fill_bytes h dst v n) ≡ words_len h
unfolding fill_bytes
words_len-fill_bytes h dst v n = fill_loop_size dst v n 0 h

-- A forward copy reads no byte that it has already overwritten.
abbrev pub Forward : ℕ → ℕ → ℕ → Type 0
Forward dst src n = (dst ≤ src) ⊎ (src + n ≤ dst)

abbrev copied : Heap → ℕ → ℕ → ℕ → ℕ → ℕ → ℕ
copied h dst src left i b =
    if within_run (dst + i) left b then byte h (src + (b - dst)) else byte h b

copy_loop-copied :
    (dst src left i n : ℕ) {h : Heap}
    → IsValid h
    → i + left ≡ n
    → Forward dst src n
    → dst + n ≤ frontier h
    → src + n ≤ 2 ^ 64
    → (b : ℕ) → IsWord b
    → byte (copy_loop dst src left i h) b ≡ copied h dst src left i b
unfolding copy_loop
copy_loop-copied dst src zero i n ok e f room read b p = ground arith
copy_loop-copied dst src (suc left) i n {h} ok e f room read b p =
    let at : dst + i < 2 ^ 64 = omega (arith, ok.within, ok.small) in
    let to : plus dst i ≡ dst + i = omega arith in
    let from : plus src i ≡ src + i = omega arith in
    let v = byte h (src + i) in
    let g = set_byte h (dst + i) v in
    let ih : byte (copy_loop dst src left (i + 1) g) b ≡ copied g dst src left (i + 1) b =
      copy_loop-copied dst src left (i + 1) n (set_byte-IsValid ok (dst + i) v at (byte-lt h _))
        (omega arith) f (omega (arith, words_len-set_byte h (dst + i) v)) read b p in
    rw (to, from) (ih ∙ step at)
  where
    step :
        dst + i < 2 ^ 64
        → copied (set_byte h (dst + i) (byte h (src + i))) dst src left (i + 1) b
          ≡ copied h dst src (suc left) i b
    step at = elim (Bool-cases (within_run (dst + (i + 1)) left b)) [
      | inl later ↦
          let q : (dst + (i + 1) ≤ b) × (b < dst + (i + 1) + left) = ground arith in
          let one : byte (set_byte h (dst + i) (byte h (src + i))) (src + (b - dst)) ≡ (
              if src + (b - dst) == dst + i then byte h (src + i) else byte h (src + (b - dst))) =
            byte-set_byte ok (dst + i) (src + (b - dst)) (byte h (src + i)) at (omega arith)
              (byte-lt h _) (omega arith) in
          let apart : (src + (b - dst) == dst + i) ≡ false =
            ne→==_false _ _ (λ z. elim f [ inl x ↦ omega arith | inr x ↦ omega arith ]) in
          let whole : within_run (dst + i) (suc left) b ≡ true = ground arith in
          rw (later, whole) (one ∙ rw apart)
      | inr now ↦
          let one : byte (set_byte h (dst + i) (byte h (src + i))) b
              ≡ (if b == dst + i then byte h (src + i) else byte h b) =
            byte-set_byte ok (dst + i) b (byte h (src + i)) at p (byte-lt h _) (omega arith) in
          rw now (
            one ∙ elim (Bool-cases (b == dst + i)) [
              | inl here ↦
                  let whole : within_run (dst + i) (suc left) b ≡ true = ground arith in
                  let same : src + i ≡ src + (b - dst) =
                    omega (arith, (==_iff b (dst + i)).0 here) in
                  rw (here, whole) (ap (byte h) same)
              | inr other ↦
                  let whole : within_run (dst + i) (suc left) b ≡ false = ground arith in
                  rw (other, whole)
            ])
    ]

-- In a valid arena a copy into a run inside it, from a run at or above it or wholly below it,
-- moves the `n` bytes as they were and changes no other byte.
pub byte-copy_bytes :
    {h : Heap}
    → IsValid h
    → (dst src n : ℕ) → Forward dst src n
    → dst + n ≤ frontier h
    → src + n ≤ 2 ^ 64
    → (b : ℕ) → IsWord b
    → byte (copy_bytes h dst src n) b
      ≡ (if within_run dst n b then byte h (src + (b - dst)) else byte h b)
unfolding copy_bytes
byte-copy_bytes ok dst src n f room read b p =
    copy_loop-copied dst src n 0 n ok (omega arith) f room read b p ∙ ground arith
