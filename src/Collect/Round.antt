-- ===== src/Collect/Round.antt =====
-- src/collect.rs: one round of the sweep, at one object.
use x_engine_rust.Prelude.{
  ℕ, ◌%◌, ◌^◌, bit_and, ◌≡◌, refl, ◌∙◌, inl, inr, Bool, true, false, ◌∷◌, arith, if◌then◌else◌,
  Bool-cases,
}
use x_engine_rust.Obj.{Obj, IsWord, bit_not}
use x_engine_rust.Heap.Words.{IsValid}
use x_engine_rust.Objects.{
  Objects, bucket, set_bucket, flags_word, set_flags_word, chain_next, set_chain_next,
}
use x_engine_rust.Objects.Header.{IsPlace}
use x_engine_rust.Collect.{mark_bit, freed_word, is_marked, clear_mark, release, sweep_key}
use x_engine_rust.Collect.Chain.{
  Touches, Touches-place, Touches-trans, unmarked_word, set_flags_word-Touches,
  flags_word-set_flags_word, set_chain_next-Touches, chain_next-set_chain_next,
  flags_word-set_chain_next,
}

abbrev pub swept_flags : (Obj → Bool) → Obj → ℕ → ℕ
swept_flags m o w = if m o then w % 2 ^ 63 else freed_word

-- What the loop reads of the objects ahead: their marks and their keys.
abbrev pub Reads : Objects → (Obj → Bool) → (Obj → ℕ) → Obj → Type 0
Reads s m key o = (is_marked s o ≡ m o) × (sweep_key s o ≡ key o)

-- One round at the object `o`, which links to `kept` if it is marked.
abbrev pub round : Objects → Obj → Obj → Bool → Objects
round s o kept marked = if marked then set_chain_next (clear_mark s o) o kept else release s o

pub record Round (s : Objects) (m : Obj → Bool) (key : Obj → ℕ) (o kept : Obj) (t : Objects)
    : Type 0 where
  pub touches : Touches s o t
  pub linked : m o ≡ true → chain_next t o ≡ kept
  pub flagged : flags_word t o ≡ swept_flags m o (flags_word s o)
  pub free :
      t.free ≡ (if m o then s.free else set_bucket s.free (key o) (o ∷ bucket s.free (key o)))

module _ (s : Objects) (ok : IsValid s.heap) (m : Obj → Bool) (key : Obj → ℕ) {o : Obj}
    (p : IsPlace s.heap o 0) (r : Reads s m key o) (kept : Obj) (small : IsWord kept) where
  cleared-IsWord : IsWord (bit_and (flags_word s o) (bit_not mark_bit))
  cleared-IsWord = rw (unmarked_word (flags_word s o)) (omega arith)

  keep-Round : m o ≡ true → Round s m key o kept (set_chain_next (clear_mark s o) o kept)
  unfolding clear_mark
  keep-Round e =
      let d1 = set_flags_word-Touches s ok p _ cleared-IsWord in
      let p1 = Touches-place ok d1 p in
      let s1 = clear_mark s o in
      let d2 = set_chain_next-Touches s1 d1.valid p1 kept small in
      record {
        touches = Touches-trans d1 d2;
        linked = λ _. chain_next-set_chain_next s1 d1.valid p1 kept small;
        flagged =
            flags_word-set_chain_next s1 d1.valid p1 kept small
            ∙ flags_word-set_flags_word s ok p _ cleared-IsWord
            ∙ unmarked_word (flags_word s o)
            ∙ rw e;
        free = rw e (d2_free (clear_mark s o));
      }
    where
      d2_free : (t : Objects) → (set_chain_next t o kept).free ≡ t.free
      d2_free t = unfold set_chain_next in refl

  -- A released object has its flags word stamped and goes on the free list.
  stamped : Objects
  stamped = set_flags_word s o freed_word

  drop-Round : m o ≡ false → s.poison_freed ≡ false → Round s m key o kept (release s o)
  unfolding set_flags_word flags_word
  drop-Round e clean =
      let d = set_flags_word-Touches s ok p freed_word (omega arith) in
      rw released_state (record {
        touches = record {
          valid = d.valid;
          size = d.size;
          others = refl;
          kept = d.kept;
          length_kept = d.length_kept;
        };
        linked = λ z. cc;
        flagged = rw e (flags_word-set_flags_word s ok p freed_word (omega arith));
        free = rw (e, r.1);
      })
    where
      put_free : Objects → Objects
      put_free t = record t {
        free = set_bucket t.free (sweep_key s o) (o ∷ bucket t.free (sweep_key s o));
      }

      released_state : release s o ≡ put_free (set_flags_word s o freed_word)
      released_state = unfold release in simp clean

  pub sweep_round : s.poison_freed ≡ false → Round s m key o kept (round s o kept (m o))
  sweep_round clean = elim (Bool-cases (m o)) [
    | inl e ↦ rw e (keep-Round e)
    | inr e ↦ rw e (drop-Round e clean)
  ]
