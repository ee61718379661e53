-- ===== src/Env/Index.antt =====
-- src/env.rs: the shadow map of a frame against the scan of its chain.
use x_engine_rust.Prelude.{
  ℕ, zero, suc, ◌≡◌, refl, sym, ap, ◌∙◌, inl, inr, Bool, true, false, Option, none, some, [], ◌∷◌,
  ◌==◌, if◌then◌else◌, ==_iff, ==_refl, Bool-cases,
}
use x_engine_rust.Obj.{Obj, is_nil}
use x_engine_rust.Objects.{Objects, data_word, first, rest}
use x_engine_rust.Env.{
  Envs, Map, map_get, map_insert, map_or_insert, scan, index_loop, find_in_frame, chain_slot,
}

or_none :
    {A : Type 0} (o : Option A) (b : Bool) (a : A)
    → b ≡ false
    → (elim o [ some c ↦ some c | none ↦ if b then some a else none ]) ≡ o
or_none none b a e = rw e refl
or_none (some c) b a e = refl

pub if_true : {A : Type 0} {x : A} (y : A) {b : Bool} → b ≡ true → (if b then x else y) ≡ x
if_true y e = rw e refl

pub if_false : {A : Type 0} (x : A) {y : A} {b : Bool} → b ≡ false → (if b then x else y) ≡ y
if_false x e = rw e refl

map_get-map_or_insert :
    {A : Type 0} (m : Map A) (key : ℕ) (a : A) (k : ℕ)
    → map_get (map_or_insert m key a) k
      ≡ elim (map_get m k) [ some b ↦ some b | none ↦ if key == k then some a else none ]
map_get-map_or_insert [] key a k = refl
map_get-map_or_insert ((j, b) ∷ m) key a k = elim (Bool-cases (j == k)) [
  | inl e ↦ rw e refl
  | inr e ↦ elim (Bool-cases (j == key)) [
    | inl f ↦
        let g : (key == k) ≡ false = rw ((==_iff j key).0 f) at e in
        rw (e, f) (sym (or_none (map_get m k) (key == k) a g))
    | inr f ↦ rw (e, f) (map_get-map_or_insert m key a k)
  ]
]

pub map_get-map_insert :
    {A : Type 0} (m : Map A) (key : ℕ) (a : A) → map_get (map_insert m key a) key ≡ some a
map_get-map_insert [] key a = rw (==_refl key) refl
map_get-map_insert ((j, b) ∷ m) key a = elim (Bool-cases (j == key)) [
  | inl e ↦ rw e (rw e refl)
  | inr e ↦ rw e (rw e (map_get-map_insert m key a))
]

pub index_end :
    (fuel : ℕ) (s : Objects) (at : Obj) (m : Map Obj)
    → is_nil at ≡ true
    → index_loop fuel s at m ≡ some m
unfolding index_loop
index_end zero s at m e = if_true _ e
index_end (suc fuel) s at m e = if_true _ e

pub index_step :
    (fuel : ℕ) (s : Objects) (at : Obj) (m : Map Obj)
    → is_nil at ≡ false
    → index_loop (suc fuel) s at m
      ≡ index_loop fuel s (rest s at) (map_or_insert m (first s (first s at)) (first s at))
unfolding index_loop
index_step fuel s at m e = if_false _ e

index_out : (s : Objects) (at : Obj) (m : Map Obj) → is_nil at ≡ false → index_loop 0 s at m ≡ none
unfolding index_loop
index_out s at m e = if_false _ e

scan_end :
    (fuel : ℕ) (s : Objects) (at name : Obj) → is_nil at ≡ true → scan fuel s at name ≡ some none
unfolding scan
scan_end zero s at name e = if_true _ e
scan_end (suc fuel) s at name e = if_true _ e

pub scan_step :
    (fuel : ℕ) (s : Objects) (at name : Obj)
    → is_nil at ≡ false
    → scan (suc fuel) s at name ≡ (
        if first s (first s at) == name
        then some (some (first s at))
        else scan fuel s (rest s at) name)
unfolding scan
scan_step fuel s at name e = if_false _ e

some_inj : {A : Type 0} {x y : A} → some x ≡ some y → x ≡ y
some_inj e = cc

-- The map that is built on top of `m` keeps what `m` has and adds what the scan finds.
abbrev Mirrors : ℕ → Objects → Obj → Obj → Map Obj → Map Obj → Type 0
Mirrors fuel s at name m m1 =
    ((p : Obj) → map_get m name ≡ some p → map_get m1 name ≡ some p)
    × (map_get m name ≡ none → scan fuel s at name ≡ some (map_get m1 name))

Mirrors-end :
    (fuel : ℕ) (s : Objects) (at name : Obj) (m m1 : Map Obj)
    → is_nil at ≡ true
    → index_loop fuel s at m ≡ some m1
    → Mirrors fuel s at name m m1
Mirrors-end fuel s at name m m1 e h =
    let same = some_inj (sym (index_end fuel s at m e) ∙ h) in
    (
      (λ p g. ap (λ z. map_get z name) (sym same) ∙ g),
      λ g. scan_end fuel s at name e ∙ ap some (sym g ∙ ap (λ z. map_get z name) same),
    )

Mirrors-step :
    (fuel : ℕ) (s : Objects) (at name : Obj) (m m1 : Map Obj)
    → is_nil at ≡ false
    → Mirrors fuel s (rest s at) name (map_or_insert m (first s (first s at)) (first s at)) m1
    → Mirrors (suc fuel) s at name m m1
Mirrors-step fuel s at name m m1 e (keep, add) =
    let p = first s at in
    let got = map_get-map_or_insert m (first s p) p name in
    (
      (λ q g. keep q (got ∙ rw g refl)),
      λ g. scan_step fuel s at name e ∙ elim (Bool-cases (first s p == name)) [
        | inl f ↦ if_true _ f ∙ ap some (sym (keep p (got ∙ rw g (if_true _ f))))
        | inr f ↦ if_false _ f ∙ add (got ∙ rw g (if_false _ f))
      ],
    )

pub index_loop-scan :
    (fuel : ℕ) (s : Objects) (at name : Obj) (m m1 : Map Obj)
    → index_loop fuel s at m ≡ some m1
    → Mirrors fuel s at name m m1
index_loop-scan zero s at name m m1 h = elim (Bool-cases (is_nil at)) [
  | inl e ↦ Mirrors-end zero s at name m m1 e h
  | inr e ↦ absurd (no_fuel e)
]
  where
    no_fuel : is_nil at ≡ false → ⊥
    no_fuel e = let z : none ≡ some m1 = sym (index_out s at m e) ∙ h in cc
index_loop-scan (suc fuel) s at name m m1 h = elim (Bool-cases (is_nil at)) [
  | inl e ↦ Mirrors-end (suc fuel) s at name m m1 e h
  | inr e ↦ Mirrors-step fuel s at name m m1 e (
      index_loop-scan fuel s (rest s at) name (map_or_insert m (first s (first s at)) (first s at))
        m1 (sym (index_step fuel s at m e) ∙ h))
]

pub find_mapped :
    (fuel : ℕ) (e : Envs) (s : Objects) (h name : Obj) (m : Map Obj)
    → map_get e.index h ≡ some m
    → find_in_frame fuel e s h name ≡ some (map_get m name)
find_mapped fuel e s h name m p = unfold find_in_frame in ap branch p
  where
    branch : Option (Map Obj) → Option (Option Obj)
    branch r = elim r [
      | some m ↦ some (map_get m name)
      | none ↦ scan fuel s (data_word s h chain_slot) name
    ]

pub find_scanned :
    (fuel : ℕ) (e : Envs) (s : Objects) (h name : Obj)
    → map_get e.index h ≡ none
    → find_in_frame fuel e s h name ≡ scan fuel s (data_word s h chain_slot) name
find_scanned fuel e s h name p = unfold find_in_frame in ap branch p
  where
    branch : Option (Map Obj) → Option (Option Obj)
    branch r = elim r [
      | some m ↦ some (map_get m name)
      | none ↦ scan fuel s (data_word s h chain_slot) name
    ]
