-- ===== src/Value/Interned.antt =====
-- src/value/text.rs: interning makes one object for a name.
use x_engine_rust.Prelude.{
  ℕ, ◌+◌, ◌≤◌, ◌≡◌, refl, ap, ◌∙◌, inl, inr, Option, none, some, List, arith, ◌>>=◌, Option-cases,
}
use x_engine_rust.Obj.{Obj, Addr, IsWord}
use x_engine_rust.Heap.{Heap, words_len, store_bytes}
use x_engine_rust.Objects.{Objects, with_heap, meta_extra, meta_len}
use x_engine_rust.Objects.FreeList.{IsReady}
use x_engine_rust.Objects.Kinds.{flag_sym}
use x_engine_rust.Symbols.{get_symbol, put_symbol, get_symbol-put_symbol, same_name_refl}
use x_engine_rust.Value.Make.{atom, sym}
use x_engine_rust.Value.Atoms.{Stamps, atom-IsAtom}

-- The last step of `sym`: the bytes are stored, and the object is made and recorded.
abbrev recorded : ℕ → Objects → List ℕ → Addr × Heap → Option (Obj × Objects)
recorded fuel s name r = atom fuel (with_heap s r.1) flag_sym r.0 >>= (λ (a : Obj × Objects).
    some (a.0, record a.1 { symbols = put_symbol a.1.symbols name a.0 }))

abbrev found : Option Obj → Objects → Option (Obj × Objects) → Option (Obj × Objects)
found r s fresh = elim r [ some o ↦ some (o, s) | none ↦ fresh ]

abbrev made : ℕ → Objects → List ℕ → Option (Obj × Objects)
made fuel s name = store_bytes s.heap name >>= recorded fuel s name

sym_form :
    (fuel : ℕ) (s : Objects) (name : List ℕ)
    → sym fuel s name
      ≡ found
          (get_symbol s.shared_symbols name)
          s
          (found (get_symbol s.symbols name) s (store_bytes s.heap name >>= recorded fuel s name))
unfolding sym
sym_form fuel s name = refl

known :
    (fuel : ℕ) (s : Objects) (name : List ℕ) (o : Obj)
    → get_symbol s.shared_symbols name ≡ none
    → get_symbol s.symbols name ≡ some o
    → sym fuel s name ≡ some (o, s)
known fuel s name o e d = sym_form fuel s name ∙ rw e (ap (λ r. found r s (made fuel s name)) d)

shared :
    (fuel : ℕ) (s : Objects) (name : List ℕ) (o : Obj)
    → get_symbol s.shared_symbols name ≡ some o
    → sym fuel s name ≡ some (o, s)
shared fuel s name o e =
    sym_form fuel s name
    ∙ ap (λ r. found r s (found (get_symbol s.symbols name) s (made fuel s name))) e

-- When the bytes of a name fit the arena at `at`, and the state with them is ready, knows the stamp
-- of symbols and has room for an object: interning the name answers an object, and interning it
-- again in the state that this leaves, with any fuel, answers the same object and changes nothing.
pub sym-sym :
    (fuel again : ℕ) (s : Objects) (name : List ℕ) (at : Addr) (h : Heap) (ty : Obj)
    → store_bytes s.heap name ≡ some (at, h)
    → IsReady (with_heap s h)
    → Stamps fuel (with_heap s h) flag_sym ty
    → IsWord ty
    → IsWord at
    → words_len h + (meta_extra (with_heap s h) + (meta_len + 1)) ≤ h.capacity
    → (o : Obj) × (t : Objects) × (sym fuel s name ≡ some (o, t)) × (sym again t name ≡ some (o, t))
sym-sym fuel again s name at h ty stored r stamped wty wat room =
    elim (Option-cases (get_symbol s.shared_symbols name)) [
      | inr (o, e) ↦ (o, s, shared fuel s name o e, shared again s name o e)
      | inl e ↦ elim (Option-cases (get_symbol s.symbols name)) [
        | inr (o, d) ↦ (o, s, known fuel s name o e d, known again s name o e d)
        | inl d ↦
            let (o, t, q, a) =
              atom-IsAtom fuel (with_heap s h) flag_sym ty at r stamped
                (record { low = omega arith; high = omega arith }) wty wat room in
            let u : Objects = record t { symbols = put_symbol t.symbols name o } in
            let put : get_symbol u.symbols name ≡ some o =
              get_symbol-put_symbol t.symbols name name o ∙ rw (same_name_refl name) refl in
            let absent : get_symbol u.shared_symbols name ≡ none =
              ap (λ l. get_symbol l name) a.shared_kept ∙ e in
            (
              o,
              u,
              sym_form fuel s name
                  ∙ ap (λ r. found r s (found (get_symbol s.symbols name) s (made fuel s name))) e
                  ∙ ap (λ r. found r s (made fuel s name)) d
                  ∙ ap (λ r. r >>= recorded fuel s name) stored
                  ∙ ap
                      (λ r. r >>= (λ (b : Obj × Objects).
                        some (b.0, record b.1 { symbols = put_symbol b.1.symbols name b.0 })))
                      q,
              known again u name o absent put,
            )
      ]
    ]
