-- ===== src/Heap/Text.antt =====
-- src/heap.rs: NUL-terminated strings. What `store_bytes` stores `bytes_at` reads back, up to the
-- first NUL.
use x_engine_rust.Prelude.{
  ℕ, zero, suc, ◌+◌, ◌-◌, ◌*◌, ◌/◌, ◌^◌, ◌≤◌, ◌<◌, ◌≡◌, refl, ap, ◌∙◌, ◌≢◌, inl, inr, some, List,
  [], ◌∷◌, ◌++◌, arith, ltb, ◌==◌, if◌then◌else◌, ltb→lt, le→ltb_false, ltb_false→le, le→leb,
  ==_false→ne, Bool-cases, length, get_or, length-append,
}
use x_engine_rust.Obj.{Addr, IsWord, word_bytes, nil, plus}
use x_engine_rust.Heap.{
  Heap, words_len, frontier, byte, store_loop, store_bytes, bytes_loop, bytes_at,
}
use x_engine_rust.Heap.Words.{IsValid}
use x_engine_rust.Heap.Bytes.{byte_beyond}
use x_engine_rust.Heap.Storing.{AreBytes, Stored, store_loop-Stored}

-- The bytes that a C string shows: those before its first NUL.
abbrev pub until_nul : List ℕ → List ℕ
until_nul [] = []
until_nul (c ∷ cs) = if c == 0 then [] else c ∷ until_nul cs

-- Enough fuel for a run of bytes that ends in a NUL: one more than its length.
bytes_loop-until_nul :
    (h : Heap) (at : Addr) (bs : List ℕ) (fuel i : ℕ)
    → ((k : ℕ) → k ≤ length bs → byte h (plus at (i + k)) ≡ get_or bs k 0)
    → length bs < fuel
    → bytes_loop h at fuel i ≡ some (until_nul bs)
unfolding bytes_loop
bytes_loop-until_nul h at bs zero i shows enough = absurd (omega arith)
bytes_loop-until_nul h at [] (suc fuel) i shows enough =
    let here : byte h (plus at i) ≡ 0 =
      ap (λ k. byte h (plus at k)) (let z : i ≡ i + 0 = omega arith in z) ∙ shows 0 (omega arith) in
    rw here
bytes_loop-until_nul h at (c ∷ bs) (suc fuel) i shows enough =
    let here : byte h (plus at i) ≡ c =
      ap (λ k. byte h (plus at k)) (let z : i ≡ i + 0 = omega arith in z) ∙ shows 0 (omega arith) in
    let ih : bytes_loop h at fuel (i + 1) ≡ some (until_nul bs) =
      bytes_loop-until_nul h at bs fuel (i + 1)
        (λ k below.
          ap (λ j. byte h (plus at j)) (let z : i + 1 + k ≡ i + suc k = omega arith in z)
          ∙ shows (suc k) (omega arith))
        (omega arith) in
    rw (here, ih) (elim (Bool-cases (c == 0)) [ inl e ↦ rw e | inr e ↦ rw e ])

bytes_loop_total :
    {h : Heap}
    → IsValid h
    → (at : Addr) (fuel i : ℕ) → at + i < 2 ^ 64
    → frontier h < at + i + fuel
    → 0 < fuel
    → (out : List ℕ) × (bytes_loop h at fuel i ≡ some out)
unfolding bytes_loop
bytes_loop_total ok at zero i p enough pos = absurd (omega arith)
bytes_loop_total {h} ok at (suc fuel) i p enough pos = elim (Bool-cases (byte h (plus at i) == 0)) [
  | inl e ↦ ([], rw e)
  | inr e ↦
      let here : plus at i ≡ at + i = omega arith in
      let inside : (at + i) / 8 < words_len h =
        elim (Bool-cases (ltb ((at + i) / 8) (words_len h))) [
          | inl l ↦ ltb→lt _ _ l
          | inr g ↦
              absurd (
                ==_false→ne _ _ e
                  (ap (byte h) here ∙ byte_beyond h (at + i) p (ltb_false→le _ _ g)))
        ] in
      let (out, q) =
        bytes_loop_total ok at fuel (i + 1) (omega (arith, ok.within, ok.small)) (omega arith)
          (omega arith) in
      (byte h (plus at i) ∷ out, rw (e, q))
]

-- `bytes_at` ends from every address of a valid arena, terminated string or not.
pub bytes_at_total :
    {h : Heap} → IsValid h → (at : Addr) → IsWord at → (out : List ℕ) × (bytes_at h at ≡ some out)
unfolding bytes_at
bytes_at_total {h} ok at p =
    bytes_loop_total ok at (words_len h * word_bytes + 1) 0 (omega arith) (omega arith)
      (omega arith)

store_fits :
    (h : Heap) (bytes : List ℕ)
    → words_len h + (length bytes / word_bytes + 2) ≤ h.capacity
    → words_len h + (0 + length (bytes ++ 0 ∷ []) + 7) / 8 ≤ h.capacity
store_fits h bytes fits = omega (arith, length-append bytes (0 ∷ []))

terminated-AreBytes : (bytes : List ℕ) → AreBytes bytes → AreBytes (bytes ++ 0 ∷ [])
terminated-AreBytes [] b = (omega arith, tt)
terminated-AreBytes (c ∷ bytes) b = (b.0, terminated-AreBytes bytes b.1)

terminated-get_or : (bytes : List ℕ) (k : ℕ) → get_or (bytes ++ 0 ∷ []) k 0 ≡ get_or bytes k 0
terminated-get_or [] zero = refl
terminated-get_or [] (suc k) = refl
terminated-get_or (c ∷ bytes) zero = refl
terminated-get_or (c ∷ bytes) (suc k) = terminated-get_or bytes k

stored :
    {h : Heap}
    → IsValid h
    → (bytes : List ℕ) → AreBytes bytes
    → words_len h + (length bytes / word_bytes + 2) ≤ h.capacity
    → Stored h 0 0 (bytes ++ 0 ∷ []) (store_loop (bytes ++ 0 ∷ []) 0 0 h)
stored {h} ok bytes b fits =
    store_loop-Stored (bytes ++ 0 ∷ []) 0 0 (terminated-AreBytes bytes b) (record {
      valid = ok;
      waiting = omega arith;
      fits = omega arith;
      room = store_fits h bytes fits;
    })

-- In a valid arena with room in the reservation `store_bytes` of a run of bytes answers the
-- frontier, which is not nil, and an arena that is valid, that has the bytes below the frontier
-- unchanged, and from which `bytes_at` reads the run back as far as its first NUL.
pub bytes_at-store_bytes :
    {h : Heap}
    → IsValid h
    → (bytes : List ℕ) → AreBytes bytes
    → words_len h + (length bytes / word_bytes + 2) ≤ h.capacity
    → (g : Heap) × (store_bytes h bytes ≡ some (frontier h, g))
      × (frontier h ≢ nil)
      × IsValid g
      × ((b : ℕ) → b < frontier h → byte g b ≡ byte h b)
      × (bytes_at g (frontier h) ≡ some (until_nul bytes))
bytes_at-store_bytes {h} ok bytes b fits = (
  g,
  unfold store_bytes in rw (le→leb _ _ fits),
  omega (arith, ok.reserved),
  s.valid,
  s.kept,
  unfold bytes_at in
      bytes_loop-until_nul g (frontier h) bytes (words_len g * word_bytes + 1) 0 shows
        (omega (arith, s.holds, length-append bytes (0 ∷ []))),
)
  where
    g : Heap
    g = store_loop (bytes ++ 0 ∷ []) 0 0 h

    s : Stored h 0 0 (bytes ++ 0 ∷ []) g
    s = stored ok bytes b fits

    shows : (k : ℕ) → k ≤ length bytes → byte g (plus (frontier h) (0 + k)) ≡ get_or bytes k 0
    shows k below =
        let at : plus (frontier h) (0 + k) ≡ frontier h + k = omega (arith, fits, ok.small) in
        ap (byte g) at
        ∙ s.shows k (omega (arith, fits, ok.small))
        ∙ rw (le→ltb_false k 0 (omega arith)) (
            ap (λ i. get_or (bytes ++ 0 ∷ []) i 0) (let z : k - 0 ≡ k = omega arith in z)
            ∙ terminated-get_or bytes k)
