-- ===== src/Symbols.antt =====
-- src/symbols.rs: the table of interned names. A name is its bytes, and the `HashMap` an
-- association list.
use x_engine_rust.Prelude.{
  ℕ, ◌≡◌, refl, ap, ap₂, inl, inr, Bool, true, false, ◌&&◌, Option, none, some, List, [], ◌∷◌, ◌==◌,
  if◌then◌else◌, ==_iff, ==_refl, Bool-cases,
}
use x_engine_rust.Obj.{Obj}

-- The equality of two strings.
unfoldable pub same_name : List ℕ → List ℕ → Bool
same_name [] [] = true
same_name [] (d ∷ ds) = false
same_name (c ∷ cs) [] = false
same_name (c ∷ cs) (d ∷ ds) = c == d && same_name cs ds

abbrev pub Symbols : Type 0
Symbols = List (List ℕ × Obj)

unfoldable pub all : Symbols → List Obj
all [] = []
all ((n, o) ∷ table) = o ∷ all table

unfoldable pub get_symbol : Symbols → List ℕ → Option Obj
unfolding same_name
get_symbol [] name = none
get_symbol ((n, o) ∷ table) name = if same_name n name then some o else get_symbol table name

unfoldable pub put_symbol : Symbols → List ℕ → Obj → Symbols
unfolding same_name
put_symbol [] name o = (name, o) ∷ []
put_symbol ((n, old) ∷ table) name o =
    if same_name n name then (n, o) ∷ table else (n, old) ∷ put_symbol table name o

pub same_name_refl : (a : List ℕ) → same_name a a ≡ true
unfolding same_name
same_name_refl [] = refl
same_name_refl (c ∷ cs) = rw (==_refl c) (same_name_refl cs)

same_name_eq : (a b : List ℕ) → same_name a b ≡ true → a ≡ b
unfolding same_name
same_name_eq [] [] h = refl
same_name_eq [] (d ∷ ds) h = cc
same_name_eq (c ∷ cs) [] h = cc
same_name_eq (c ∷ cs) (d ∷ ds) h = elim (Bool-cases (c == d)) [
  | inl e ↦ ap₂ (λ x xs. x ∷ xs) ((==_iff c d).0 e) (same_name_eq cs ds (rw e at h))
  | inr e ↦ let z : false ≡ true = rw e at h in cc
]

get_symbol_cons :
    (n : List ℕ) (o : Obj) (table : Symbols) (other : List ℕ)
    → get_symbol ((n, o) ∷ table) other
      ≡ (if same_name n other then some o else get_symbol table other)
unfolding get_symbol
get_symbol_cons n o table other = refl

put_symbol_found :
    (n : List ℕ) (old : Obj) (table : Symbols) (name : List ℕ) (o : Obj)
    → same_name n name ≡ true
    → put_symbol ((n, old) ∷ table) name o ≡ (name, o) ∷ table
put_symbol_found n old table name o e =
    unfold put_symbol in rw e (ap (λ z. (z, o) ∷ table) (same_name_eq n name e))

put_symbol_next :
    (n : List ℕ) (old : Obj) (table : Symbols) (name : List ℕ) (o : Obj)
    → same_name n name ≡ false
    → put_symbol ((n, old) ∷ table) name o ≡ (n, old) ∷ put_symbol table name o
put_symbol_next n old table name o e = unfold put_symbol in rw e refl

-- A name that is put is found, and every other name is found or absent as before.
pub get_symbol-put_symbol :
    (table : Symbols) (name other : List ℕ) (o : Obj)
    → get_symbol (put_symbol table name o) other
      ≡ (if same_name name other then some o else get_symbol table other)
get_symbol-put_symbol [] name other o = unfold put_symbol in get_symbol_cons name o [] other
get_symbol-put_symbol ((n, old) ∷ table) name other o = elim (Bool-cases (same_name n name)) [
  | inl e ↦
      rw
        (
          put_symbol_found n old table name o e,
          get_symbol_cons name o table other,
          get_symbol_cons n old table other,
          same_name_eq n name e,
        )
        (elim (Bool-cases (same_name name other)) [ inl f ↦ rw f refl | inr f ↦ rw f refl ])
  | inr e ↦
      rw
        (
          put_symbol_next n old table name o e,
          get_symbol_cons n old (put_symbol table name o) other,
          get_symbol_cons n old table other,
          get_symbol-put_symbol table name other o,
        )
        (elim (Bool-cases (same_name name other)) [
          | inl f ↦
              let g : same_name n other ≡ false = rw (same_name_eq name other f) at e in
              rw (f, g) refl
          | inr f ↦ rw f refl
        ])
]
