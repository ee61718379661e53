-- ===== src/Reader/Ahead.antt =====
-- src/read.rs: the loops of the reader on a buffer that is not refilled, such as one over a text.
use x_engine_rust.Prelude.{
  ℕ, zero, suc, ◌+◌, ◌≤◌, ◌<◌, ◌≡◌, refl, sym, ◌∙◌, ◌⊎◌, inl, inr, Bool, true, false, Option, none,
  some, arith, ltb, if◌then◌else◌, ◌>>=◌, ltb→lt, lt→ltb, le→ltb_false, ltb_false→le, Bool-cases,
}
use x_engine_rust.Obj.{Obj, IsWord, plus, word_index}
use x_engine_rust.Heap.{words_len, byte}
use x_engine_rust.Heap.Words.{IsValid, words_len-set_word}
use x_engine_rust.Objects.{Objects, slot, data_word, set_data, meta_len}
use x_engine_rust.Objects.Header.{IsPlace, IsPlace_grow, data_word-set_data, data_word-at_index}
use x_engine_rust.Value.Pairs.{set-IsValid, set_kept}
use x_engine_rust.Value.Buffer.{marks, buf_cursor, set_buf_cursor, buf_write, buf_ro, buf_bump}
use x_engine_rust.Value.Buffer.{buf_text, str_bytes}
use x_engine_rust.Reader.{
  latch_open, refill_from, Reader, bump, source_open, buf_refill, buf_byte_ahead, buf_peek,
  take_while,
}

-- A buffer over a text: read-only, its two objects in the arena and apart, its cursor no further
-- than its write mark.
pub record IsView (s : Objects) (b : Obj) : Type 0 where
  pub valid : IsValid s.heap
  pub place : IsPlace s.heap b 7
  pub marks_place : IsPlace s.heap (marks s b) 2
  pub apart :
      (word_index b + (meta_len + 7) ≤ word_index (marks s b))
      ⊎ (word_index (marks s b) + (meta_len + 2) ≤ word_index b)
  pub ro : buf_ro s b ≡ true
  pub within : buf_cursor s b ≤ buf_write s b

-- The step of the cursor.
pub record Bumped (s : Objects) (b : Obj) (t : Objects) : Type 0 where
  pub view : IsView t b
  pub moved : buf_cursor t b ≡ buf_cursor s b + 1
  pub write_kept : buf_write t b ≡ buf_write s b

pub bump_view :
    (s : Objects) (b : Obj)
    → IsView s b
    → buf_cursor s b < buf_write s b
    → Bumped s b (buf_bump s b)
unfolding buf_bump buf_cursor set_buf_cursor buf_write
bump_view s b v inside = record {
  view = record {
    valid = set-IsValid s v.valid v.marks_place 0 next (omega arith) small;
    place = IsPlace_grow v.place grown;
    marks_place = rw same_marks (IsPlace_grow v.marks_place grown);
    apart = rw same_marks v.apart;
    ro = same_ro ∙ v.ro;
    within = omega (arith, moved, write_kept);
  };
  moved = moved;
  write_kept = write_kept;
}
  where
    next : ℕ
    next = data_word s (marks s b) 0 + 1

    small : IsWord next
    small = omega (
      arith,
      data_word-at_index s v.valid v.marks_place 1 (omega arith),
      v.valid.bounded (word_index (marks s b) + (meta_len + 1)),
    )

    t : Objects
    t = set_data s (marks s b) 0 next

    grown : words_len s.heap ≤ words_len t.heap
    grown = unfold set_data in omega (arith, words_len-set_word s.heap (slot (marks s b) 0) next)

    other : (k : ℕ) → k < 7 → data_word t b k ≡ data_word s b k
    other k few =
        data_word-at_index t (set-IsValid s v.valid v.marks_place 0 next (omega arith) small)
          (IsPlace_grow v.place grown) k few
        ∙ set_kept s v.valid v.marks_place 0 next (omega arith) small
            (word_index b + (meta_len + k))
            (λ e. elim v.apart [ inl x ↦ omega arith | inr x ↦ omega arith ])
        ∙ sym (data_word-at_index s v.valid v.place k few)

    same_marks : marks t b ≡ marks s b
    same_marks = other 1 (omega arith)

    same_ro : buf_ro t b ≡ buf_ro s b
    same_ro = unfold buf_ro in rw (other 3 (omega arith)) refl

    moved : buf_cursor t b ≡ buf_cursor s b + 1
    moved = rw same_marks (
        data_word-set_data s v.valid v.marks_place 0 0 next small (omega arith) (omega arith)
        ∙ refl)

    write_kept : buf_write t b ≡ buf_write s b
    write_kept = rw same_marks (
        data_word-set_data s v.valid v.marks_place 0 1 next small (omega arith) (omega arith)
        ∙ refl)

source_form :
    (s : Objects) (b : Obj) → source_open s b ≡ (if buf_ro s b then false else latch_open s)
unfolding source_open
source_form s b = refl

closed : (s : Objects) (b : Obj) → buf_ro s b ≡ true → source_open s b ≡ false
closed s b e = source_form s b ∙ rw e refl

module _ {I : Type 0} (pull : I → Option ℕ × I) where
  no_refill :
      (r : Reader I) (b : Obj) → buf_ro r.objects b ≡ true → buf_refill pull r b ≡ (false, r)
  no_refill r b e = refill_form r b ∙ rw (closed r.objects b e) (unfold refill_from in refl)
    where
      refill_form :
          (r : Reader I) (b : Obj)
          → buf_refill pull r b ≡ refill_from pull (source_open r.objects b) r b
      refill_form r b = unfold buf_refill in refl

  abbrev pub here : Reader I → Obj → ℕ
  here r b =
      byte r.objects.heap
        (plus (str_bytes r.objects (buf_text r.objects b)) (buf_cursor r.objects b + 0))

  peek_form :
      (fuel : ℕ) (r : Reader I) (b : Obj)
      → buf_peek pull (suc fuel) r b ≡ (
          if ltb (buf_cursor r.objects b + 0) (buf_write r.objects b)
          then some (some (here r b), r)
          else if (buf_refill pull r b).0
          then buf_byte_ahead pull fuel (buf_refill pull r b).1 b 0
          else some (none, (buf_refill pull r b).1))
  unfolding buf_peek
  peek_form fuel r b = refl

  -- What a round of `take_while` does with the byte that it sees.
  abbrev taken : ℕ → (ℕ → Bool) → Obj → Option ℕ × Reader I → Option (Reader I)
  taken fuel p b c = elim c.0 [
    | none ↦ some c.1
    | some x ↦ if p x then take_while pull fuel p (bump pull c.1 b) b else some c.1
  ]

  take_while_form :
      (fuel : ℕ) (p : ℕ → Bool) (r : Reader I) (b : Obj)
      → take_while pull (suc fuel) p r b
        ≡ (buf_peek pull fuel r b >>= (λ (c : Option ℕ × Reader I). taken fuel p b c))
  take_while_form fuel p r b = unfold take_while in refl

  -- What the loop leaves: a view whose cursor has moved forward, to the write mark or to a byte that
  -- fails the test.
  pub record Ended (p : ℕ → Bool) (r : Reader I) (b : Obj) (t : Reader I) : Type 0 where
    pub view : IsView t.objects b
    pub forward : buf_cursor r.objects b ≤ buf_cursor t.objects b
    pub end_kept : buf_write t.objects b ≡ buf_write r.objects b
    pub stopped : (buf_cursor t.objects b ≡ buf_write t.objects b) ⊎ (p (here t b) ≡ false)
    pub stream_kept : t.input ≡ r.input

  pub peek_inside :
      (fuel : ℕ) (r : Reader I) (b : Obj)
      → buf_cursor r.objects b < buf_write r.objects b
      → buf_peek pull (suc fuel) r b ≡ some (some (here r b), r)
  peek_inside fuel r b h =
      let yes : ltb (buf_cursor r.objects b + 0) (buf_write r.objects b) ≡ true =
        lt→ltb _ _ (omega arith) in
      peek_form fuel r b ∙ rw yes refl

  pub peek_end :
      (fuel : ℕ) (r : Reader I) (b : Obj)
      → buf_ro r.objects b ≡ true
      → buf_write r.objects b ≤ buf_cursor r.objects b
      → buf_peek pull (suc fuel) r b ≡ some (none, r)
  peek_end fuel r b ro h =
      let past : ltb (buf_cursor r.objects b + 0) (buf_write r.objects b) ≡ false =
        le→ltb_false _ _ (omega arith) in
      peek_form fuel r b ∙ rw (past, no_refill r b ro) refl

  -- On a buffer over a text, with fuel for two more than the bytes from the cursor to the write mark, the loop over the bytes that pass a test returns. Its cursor has not moved back nor
  -- past the write mark; it stands at the write mark or at a byte that fails the test; the write
  -- mark is where it was, the buffer is still one over a text, and no byte of the stream was pulled.
  pub take_while-Ended :
      (fuel : ℕ) (p : ℕ → Bool) (r : Reader I) (b : Obj)
      → IsView r.objects b
      → buf_write r.objects b + 2 ≤ buf_cursor r.objects b + fuel
      → (t : Reader I) × (take_while pull fuel p r b ≡ some t) × Ended p r b t
  take_while-Ended zero p r b v enough = absurd (omega (arith, v.within))
  take_while-Ended (suc zero) p r b v enough = absurd (omega (arith, v.within))
  take_while-Ended (suc (suc fuel)) p r b v enough =
      elim (Bool-cases (ltb (buf_cursor r.objects b) (buf_write r.objects b))) [
        | inr e ↦
            let past = ltb_false→le (buf_cursor r.objects b) (buf_write r.objects b) e in
            (
              r,
              take_while_form (suc fuel) p r b ∙ rw (peek_end fuel r b v.ro past) refl,
              record {
                view = v;
                forward = omega arith;
                end_kept = refl;
                stopped = inl (omega (arith, v.within));
                stream_kept = refl;
              },
            )
        | inl e ↦
            let inside = ltb→lt (buf_cursor r.objects b) (buf_write r.objects b) e in
            elim (Bool-cases (p (here r b))) [
              | inr f ↦ (
                r,
                take_while_form (suc fuel) p r b ∙ rw (peek_inside fuel r b inside, f) refl,
                record {
                  view = v;
                  forward = omega arith;
                  end_kept = refl;
                  stopped = inr f;
                  stream_kept = refl;
                },
              )
              | inl f ↦
                  let step = bump_view r.objects b v inside in
                  let (t, run, z) =
                    take_while-Ended (suc fuel) p (bump pull r b) b step.view
                      (omega (arith, step.moved, step.write_kept)) in
                  (
                    t,
                    take_while_form (suc fuel) p r b ∙ rw (peek_inside fuel r b inside, f) run,
                    record {
                      view = z.view;
                      forward = omega (arith, z.forward, step.moved);
                      end_kept = z.end_kept ∙ step.write_kept;
                      stopped = z.stopped;
                      stream_kept = z.stream_kept;
                    },
                  )
            ]
      ]
