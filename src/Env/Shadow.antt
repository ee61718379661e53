-- ===== src/Env/Shadow.antt =====
-- src/env.rs: the shadow map of a frame through the bindings that are added to the frame.
use mathlib.Core.Option.{none-ne-some, some-injective}
use x_engine_rust.Prelude.{
  ℕ, zero, suc, ◌+◌, ◌≡◌, refl, sym, ap, ◌∙◌, inl, inr, true, false, Option, none, some, [], ◌∷◌,
  ◌==◌, ltb, if◌then◌else◌, ==_iff, ==_refl, Bool-cases, Option-cases, ◌>>=◌, arith,
}
use x_engine_rust.Obj.{Obj, is_nil}
use x_engine_rust.Objects.{Objects, data_word, first, rest}
use x_engine_rust.Env.{
  Envs, Map, map_get, map_insert, map_or_insert, chain_len, scan, index_loop, find_in_frame,
  reindex, chain_slot, index_at,
}
use x_engine_rust.Env.Index.{
  if_true, if_false, map_get-map_insert, index_end, index_step, index_loop-scan, scan_step,
  find_mapped, find_scanned,
}

map_insert_lem :
    {A : Type 0} (m : Map A) (key : ℕ) (a : A) (k : ℕ)
    → map_get (map_insert m key a) k ≡ (if key == k then some a else map_get m k)
map_insert_lem [] key a k = refl
map_insert_lem ((j, b) ∷ m) key a k = elim (Bool-cases (j == key)) [
  | inl e ↦
      rw ((==_iff j key).0 e, ==_refl key)
        (elim (Bool-cases (key == k)) [ inl f ↦ rw f refl | inr f ↦ rw f refl ])
  | inr e ↦ rw e (elim (Bool-cases (j == k)) [
    | inl f ↦
        let g : (key == k) ≡ false = grind (arith, ==_iff key k, ==_iff j k, ==_iff j key, e, f) in
        rw (f, g) refl
    | inr f ↦ rw f (map_insert_lem m key a k)
  ])
]

map_get-other :
    {A : Type 0} (m : Map A) (key : ℕ) (a : A) (k : ℕ)
    → (key == k) ≡ false
    → map_get (map_insert m key a) k ≡ map_get m k
map_get-other m key a k e = map_insert_lem m key a k ∙ if_false _ e

-- A shadow map, where the frame has one, answers every name as the scan of the chain from `at`.
abbrev pub Shadows : ℕ → Envs → Objects → Obj → Obj → Type 0
Shadows fuel e s h at =
    (m : Map Obj) → map_get e.index h ≡ some m → (k : Obj) → scan fuel s at k ≡ some (map_get m k)

len_end : (fuel : ℕ) (s : Objects) (at : Obj) → is_nil at ≡ true → chain_len fuel s at ≡ some 0
unfolding chain_len
len_end zero s at e = if_true _ e
len_end (suc fuel) s at e = if_true _ e

len_out : (s : Objects) (at : Obj) → is_nil at ≡ false → chain_len 0 s at ≡ none
unfolding chain_len
len_out s at e = if_false _ e

behind : (o : Option ℕ) {n : ℕ} → (o >>= λ n. some (n + 1)) ≡ some n → (n1 : ℕ) × (o ≡ some n1)
behind none {n} h = absurd (none-ne-some n h)
behind (some n1) h = (n1, refl)

len_step :
    (fuel : ℕ) (s : Objects) (at : Obj)
    → is_nil at ≡ false
    → chain_len (suc fuel) s at ≡ (chain_len fuel s (rest s at) >>= λ n. some (n + 1))
unfolding chain_len
len_step fuel s at e = if_false _ e

-- The map of a chain whose length is known is built.
built :
    (fuel : ℕ) (s : Objects) (at : Obj) (m : Map Obj) (n : ℕ)
    → chain_len fuel s at ≡ some n
    → (m1 : Map Obj) × (index_loop fuel s at m ≡ some m1)
built zero s at m n h = elim (Bool-cases (is_nil at)) [
  | inl e ↦ (m, index_end zero s at m e)
  | inr e ↦ absurd (none-ne-some n (sym (len_out s at e) ∙ h))
]
built (suc fuel) s at m n h = elim (Bool-cases (is_nil at)) [
  | inl e ↦ (m, index_end (suc fuel) s at m e)
  | inr e ↦
      let (n1, shorter) = behind (chain_len fuel s (rest s at)) (sym (len_step fuel s at e) ∙ h) in
      let (m1, q) =
        built fuel s (rest s at) (map_or_insert m (first s (first s at)) (first s at)) n1 shorter in
      (m1, index_step fuel s at m e ∙ q)
]

-- The three branches of `reindex`.
reindex_form :
    (fuel : ℕ) (e : Envs) (s : Objects) (h name pair : Obj)
    → reindex fuel e s h name pair ≡ elim (map_get e.index h) [
      | some m ↦ some (record e { index = map_insert e.index h (map_insert m name pair) })
      | none ↦ chain_len fuel s (data_word s h chain_slot) >>= λ n.
          if ltb index_at n
          then (index_loop fuel s (data_word s h chain_slot) [] >>= λ m.
              some (record e { index = map_insert e.index h m }))
          else some e
    ]
unfolding reindex
reindex_form fuel e s h name pair = refl

-- A lookup in a frame whose shadow map is right is the scan of its chain.
pub find_in_frame-Shadows :
    (fuel : ℕ) (e : Envs) (s : Objects) (h : Obj)
    → Shadows fuel e s h (data_word s h chain_slot)
    → (k : Obj) → find_in_frame fuel e s h k ≡ scan fuel s (data_word s h chain_slot) k
find_in_frame-Shadows fuel e s h right k = elim (Option-cases (map_get e.index h)) [
  | inl none_there ↦ find_scanned fuel e s h k none_there
  | inr (m, there) ↦ find_mapped fuel e s h k m there ∙ sym (right m there k)
]

inserted-Shadows :
    (fuel : ℕ) (e : Envs) (s : Objects) (h at : Obj) (m : Map Obj)
    → ((k : Obj) → scan fuel s at k ≡ some (map_get m k))
    → Shadows fuel (record e { index = map_insert e.index h m }) s h at
inserted-Shadows fuel e s h at m right m1 there k =
    right k
    ∙ ap (λ z. some (map_get z k))
        (some-injective m m1 (sym (map_get-map_insert e.index h m) ∙ there))

-- The state of a frame after a binding: its map is right, and that of no other frame has changed.
pub record Reindexed (fuel : ℕ) (e : Envs) (s : Objects) (h : Obj) (e' : Envs) : Type 0 where
  pub shadows : Shadows fuel e' s h (data_word s h chain_slot)
  pub others : (o : Obj) → (h == o) ≡ false → map_get e'.index o ≡ map_get e.index o

module _ (fuel : ℕ) (e : Envs) (s : Objects) (h name pair : Obj)
    (long : is_nil (data_word s h chain_slot) ≡ false)
    (top : first s (data_word s h chain_slot) ≡ pair) (named : first s pair ≡ name)
    (right : Shadows fuel e s h (rest s (data_word s h chain_slot))) where
  grown :
      (m : Map Obj)
      → map_get e.index h ≡ some m
      → (k : Obj)
      → scan (suc fuel) s (data_word s h chain_slot) k ≡ some (map_get (map_insert m name pair) k)
  grown m there k =
      scan_step fuel s (data_word s h chain_slot) k long
      ∙ rw (top, named, right m there k, map_insert_lem m name pair k)
          (elim (Bool-cases (name == k)) [ inl same ↦ rw same refl | inr other ↦ rw other refl ])

  kept_map :
      (m : Map Obj)
      → map_get e.index h ≡ some m
      → (e' : Envs) × (reindex (suc fuel) e s h name pair ≡ some e') × Reindexed (suc fuel) e s h e'
  kept_map m there = (
    record e { index = map_insert e.index h (map_insert m name pair) },
    reindex_form (suc fuel) e s h name pair ∙ rw there refl,
    record {
      shadows =
          inserted-Shadows (suc fuel) e s h (data_word s h chain_slot) (map_insert m name pair)
            (grown m there);
      others = λ o ne. map_get-other e.index h (map_insert m name pair) o ne;
    },
  )

  built_map :
      (n : ℕ)
      → map_get e.index h ≡ none
      → chain_len (suc fuel) s (data_word s h chain_slot) ≡ some n
      → (e' : Envs) × (reindex (suc fuel) e s h name pair ≡ some e') × Reindexed (suc fuel) e s h e'
  built_map n fresh len = elim (Bool-cases (ltb index_at n)) [
    | inl many ↦
        let (m, made) = built (suc fuel) s (data_word s h chain_slot) [] n len in
        (
          record e { index = map_insert e.index h m },
          reindex_form (suc fuel) e s h name pair ∙ rw (fresh, len, many, made) refl,
          record {
            shadows =
                inserted-Shadows (suc fuel) e s h (data_word s h chain_slot) m (λ k.
                  (index_loop-scan (suc fuel) s (data_word s h chain_slot) k [] m made).1 refl);
            others = λ o ne. map_get-other e.index h m o ne;
          },
        )
    | inr few ↦ (
      e,
      reindex_form (suc fuel) e s h name pair ∙ rw (fresh, len, few) refl,
      record {
        shadows = λ m there. absurd (none-ne-some m (sym fresh ∙ there));
        others = λ o ne. refl;
      },
    )
  ]

-- After a pair of a name has been put in front of the chain of a frame, and where the frame's map, if
-- it has one, answered as the scan of the chain behind the new cell, and the chain has an end, the
-- upkeep of the map returns, whether it adds to the map, builds one or leaves the frame without.
-- Then every name is found in the frame as the scan of the new chain finds it, the map (if there is
-- one) answers as that scan again, and no other frame's map has changed.
pub find_in_frame-reindex :
    (fuel : ℕ) (e : Envs) (s : Objects) (h name pair : Obj) (n : ℕ)
    → is_nil (data_word s h chain_slot) ≡ false
    → first s (data_word s h chain_slot) ≡ pair
    → first s pair ≡ name
    → Shadows fuel e s h (rest s (data_word s h chain_slot))
    → chain_len (suc fuel) s (data_word s h chain_slot) ≡ some n
    → (e' : Envs) × (reindex (suc fuel) e s h name pair ≡ some e')
      × ((k : Obj)
          → find_in_frame (suc fuel) e' s h k ≡ scan (suc fuel) s (data_word s h chain_slot) k)
      × Reindexed (suc fuel) e s h e'
find_in_frame-reindex fuel e s h name pair n long top named right len =
    let (e', done, kept) = upkept in
    (e', done, find_in_frame-Shadows (suc fuel) e' s h kept.shadows, kept)
  where
    upkept :
        (e' : Envs) × (reindex (suc fuel) e s h name pair ≡ some e') × Reindexed (suc fuel) e s h e'
    upkept = elim (Option-cases (map_get e.index h)) [
      | inl fresh ↦ built_map fuel e s h name pair long top named right n fresh len
      | inr (m, there) ↦ kept_map fuel e s h name pair long top named right m there
    ]
