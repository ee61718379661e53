-- ===== src/Heap/Storing.antt =====
-- src/heap.rs: the loop of `store_bytes`, which packs eight bytes to a word at the frontier.
use x_engine_rust.Prelude.{
  ℕ, suc, ◌+◌, ◌-◌, ◌*◌, ◌/◌, ◌^◌, ◌≤◌, ◌<◌, bit_or, ◌≡◌, refl, ap, ap₂, ◌∙◌, inl, inr, List, [],
  ◌∷◌, arith, ltb, ◌==◌, if◌then◌else◌, ltb→lt, le→ltb_false, ltb_false→le, le→leb, ==_iff,
  ==_false→ne, Bool-cases, length, get_or, length-append,
}
use x_engine_rust.Prelude.Bits.{bit_or_fields}
use x_engine_rust.Obj.{IsWord}
use x_engine_rust.Heap.{Heap, words_len, frontier, byte, append_word, store_loop}
use x_engine_rust.Heap.Words.{IsValid, append_word-IsValid}
use x_engine_rust.Heap.Places.{place}
use x_engine_rust.Heap.Packing.{packed, packed-lt, partial-lt}
use x_engine_rust.Heap.Bytes.{byte-place, byte_beyond}
use x_engine_rust.Heap.Grow.{Extends, word-Extends_new, byte-Extends}

abbrev pub AreBytes : List ℕ → Type 0
AreBytes [] = Unit {0}
AreBytes (c ∷ cs) = (c < 256) × AreBytes cs

appended : (h : Heap) (w : ℕ) → Extends h (append_word h w) (w ∷ [])
appended h w = record { words = refl; capacity = refl; allocations = refl }

byte-append_word :
    (h : Heap) (w j : ℕ)
    → j < 8
    → IsWord (frontier h + j)
    → byte (append_word h w) (frontier h + j) ≡ place w j
byte-append_word h w j small p =
    byte-place (append_word h w) (frontier h + j) p
    ∙ ap₂ place (word-Extends_new (appended h w) (frontier h + j) 0 (omega arith)) (omega arith)

-- The state of the loop: the valid arena `h`, and `n` bytes waiting in `w`.
pub record IsPacking (h : Heap) (w n left : ℕ) : Type 0 where
  pub valid : IsValid h
  pub waiting : n < 8
  pub fits : w < 2 ^ (8 * n)
  pub room : words_len h + (n + left + 7) / 8 ≤ h.capacity

-- Where the loop ends: the waiting bytes and then `bytes` stand from the frontier on, followed by
-- zeros, and nothing below the frontier has changed.
pub record Stored (h : Heap) (w n : ℕ) (bytes : List ℕ) (g : Heap) : Type 0 where
  pub valid : IsValid g
  pub holds : frontier h + (n + length bytes) ≤ frontier g
  pub kept : (b : ℕ) → b < frontier h → byte g b ≡ byte h b
  pub shows :
      (j : ℕ)
      → IsWord (frontier h + j)
      → byte g (frontier h + j) ≡ (if ltb j n then place w j else get_or bytes (j - n) 0)

store_end : {h : Heap} {w n : ℕ} → IsPacking h w n 0 → Stored h w n [] (store_loop [] w n h)
unfolding store_loop
store_end {h} {w} {n} s = elim (Bool-cases (ltb 0 n)) [
  | inl some_left ↦
      let w56 : w < 2 ^ 56 = partial-lt n s.waiting w s.fits in
      let pos : 0 < n = ltb→lt 0 n some_left in
      rw some_left (record {
        valid = append_word-IsValid s.valid w (omega arith) (le→leb _ _ (omega (arith, s.room)));
        holds = omega (arith, s.waiting, length-append h.words (w ∷ []));
        kept = λ b below.
            byte-Extends (appended h w) b (omega (arith, s.valid.within, s.valid.small))
              (omega arith);
        shows = λ j p. after_word pos j p;
      })
  | inr all_done ↦
      let n0 : n ≡ 0 = omega (arith, ltb_false→le 0 n all_done) in
      rw all_done (record {
        valid = s.valid;
        holds = omega arith;
        kept = λ b below. refl;
        shows = λ j p.
            byte_beyond h (frontier h + j) p (omega arith) ∙ rw (le→ltb_false j n (omega arith));
      })
]
  where
    high_place : (j : ℕ) → j < 8 → n ≤ j → place w j ≡ 0
    high_place j small above =
        let same : w ≡ 0 * 2 ^ (8 * n) + w = omega arith in
        ap (λ t. place t j) same
        ∙ packed n s.waiting j small w 0 s.fits (omega arith)
        ∙ rw (le→ltb_false j n above) (elim (Bool-cases (j == n)) [ inl e ↦ rw e | inr e ↦ rw e ])

    after_word :
        0 < n
        → (j : ℕ) → IsWord (frontier h + j)
        → byte (append_word h w) (frontier h + j)
          ≡ (if ltb j n then place w j else get_or [] (j - n) 0)
    after_word pos j p = elim (Bool-cases (ltb j 8)) [
      | inl inside ↦ byte-append_word h w j (ltb→lt j 8 inside) p ∙ elim (Bool-cases (ltb j n)) [
        | inl e ↦ rw e
        | inr e ↦ rw e (high_place j (ltb→lt j 8 inside) (ltb_false→le j n e))
      ]
      | inr outside ↦
          let far : 8 ≤ j = ltb_false→le j 8 outside in
          byte_beyond (append_word h w) (frontier h + j) p
            (omega (arith, length-append h.words (w ∷ [])))
          ∙ rw (le→ltb_false j n (omega (arith, s.waiting)))
    ]

-- One byte more, with seven waiting: the word is complete and is appended.
store_whole :
    {h : Heap} {w n c : ℕ} {bytes : List ℕ} {g : Heap}
    → IsPacking h w n (suc (length bytes))
    → c < 256
    → n ≡ 7
    → Stored (append_word h (bit_or w (c * 2 ^ (8 * n)))) 0 0 bytes g
    → Stored h w n (c ∷ bytes) g
store_whole {h} {w} {n} {c} {bytes} {g} s byte_c n7 rest = record {
  valid = rest.valid;
  holds = omega (arith, rest.holds, len);
  kept = λ b below.
      rest.kept b (omega (arith, len))
      ∙ byte-Extends (appended h w') b (omega (arith, s.valid.within, s.valid.small)) (omega arith);
  shows = λ j p. elim (Bool-cases (ltb j 8)) [
    | inl inside ↦
        let small : j < 8 = ltb→lt j 8 inside in
        rest.kept (frontier h + j) (omega (arith, len))
        ∙ byte-append_word h w' j small p
        ∙ ap (λ t. place t j) (bit_or_fields (8 * n) c w s.fits)
        ∙ packed n s.waiting j small w c s.fits byte_c
        ∙ elim (Bool-cases (ltb j n)) [
          | inl low ↦ rw low
          | inr top ↦
              let at : j ≡ n = omega (arith, ltb_false→le j n top) in
              rw (top, (==_iff j n).1 at)
                (ap (λ k. get_or (c ∷ bytes) k 0) (let z : 0 ≡ j - n = omega arith in z))
        ]
    | inr outside ↦
        let far : 8 ≤ j = ltb_false→le j 8 outside in
        let k : frontier h + j ≡ frontier (append_word h w') + (j - 8) = omega (arith, len) in
        let next : j - n ≡ suc (j - 8 - 0) = omega arith in
        ap (byte g) k
        ∙ rest.shows (j - 8) (omega (arith, k))
        ∙ rw (le→ltb_false (j - 8) 0 (omega arith), le→ltb_false j n (omega arith), next)
  ];
}
  where
    w' : ℕ
    w' = bit_or w (c * 2 ^ (8 * n))

    len : words_len (append_word h w') ≡ words_len h + 1
    len = length-append h.words (w' ∷ [])

-- One byte more, with fewer waiting: it joins them.
store_join :
    {h : Heap} {w n c : ℕ} {bytes : List ℕ} {g : Heap}
    → IsPacking h w n (suc (length bytes))
    → c < 256
    → n < 7
    → Stored h (bit_or w (c * 2 ^ (8 * n))) (n + 1) bytes g
    → Stored h w n (c ∷ bytes) g
store_join {h} {w} {n} {c} {bytes} {g} s byte_c n6 rest = record {
  valid = rest.valid;
  holds = omega (arith, rest.holds);
  kept = rest.kept;
  shows = λ j p. rest.shows j p ∙ elim (Bool-cases (ltb j (n + 1))) [
    | inl inside ↦
        let small : j < n + 1 = ltb→lt j (n + 1) inside in
        rw inside (
          ap (λ t. place t j) (bit_or_fields (8 * n) c w s.fits)
          ∙ packed n s.waiting j (omega arith) w c s.fits byte_c
          ∙ elim (Bool-cases (ltb j n)) [
            | inl low ↦ rw low
            | inr top ↦
                let at : j ≡ n = omega (arith, ltb_false→le j n top) in
                rw (top, (==_iff j n).1 at)
                  (ap (λ k. get_or (c ∷ bytes) k 0) (let z : 0 ≡ j - n = omega arith in z))
          ])
    | inr outside ↦
        let far : n + 1 ≤ j = ltb_false→le j (n + 1) outside in
        let next : j - n ≡ suc (j - (n + 1)) = omega arith in
        rw (outside, le→ltb_false j n (omega arith), next)
  ];
}

pub store_loop-Stored :
    (bytes : List ℕ) {h : Heap} (w n : ℕ)
    → AreBytes bytes
    → IsPacking h w n (length bytes)
    → Stored h w n bytes (store_loop bytes w n h)
store_loop-Stored [] w n b s = store_end s
store_loop-Stored (c ∷ bytes) {h} w n b s = elim (Bool-cases (n + 1 == 8)) [
  | inl whole ↦
      let n7 : n ≡ 7 = omega (arith, (==_iff (n + 1) 8).0 whole) in
      let w56 : w < 2 ^ 56 = partial-lt n s.waiting w s.fits in
      let w64 : IsWord w' = rw (fields, n7) (omega (arith, b.0)) in
      store_whole s b.0 n7 (
        rw (step, whole)
          (store_loop-Stored bytes {h = append_word h w'} 0 0 b.1 (record {
            valid = append_word-IsValid s.valid w' w64 (le→leb _ _ (omega (arith, s.room)));
            waiting = omega arith;
            fits = omega arith;
            room = omega (arith, s.room, length-append h.words (w' ∷ []));
          })))
  | inr more ↦
      let n6 : n < 7 = omega (arith, ==_false→ne (n + 1) 8 more, s.waiting) in
      store_join s b.0 n6 (
        rw (step, more)
          (store_loop-Stored bytes {h = h} w' (n + 1) b.1 (record {
            valid = s.valid;
            waiting = omega arith;
            fits = rw fields (packed-lt n n6 w c s.fits b.0);
            room = omega (arith, s.room);
          })))
]
  where
    w' : ℕ
    w' = bit_or w (c * 2 ^ (8 * n))

    fields : w' ≡ c * 2 ^ (8 * n) + w
    fields = bit_or_fields (8 * n) c w s.fits

    step :
        store_loop (c ∷ bytes) w n h
        ≡ store_loop bytes
            (if n + 1 == 8 then 0 else w')
            (if n + 1 == 8 then 0 else n + 1)
            (if n + 1 == 8 then append_word h w' else h)
    step = unfold store_loop in refl
