-- ===== src/Reader/Blanks.antt =====
-- src/read.rs: the loop over blanks and comments, on a buffer that is not refilled.
use x_engine_rust.Prelude.{
  ℕ, zero, suc, ◌+◌, ◌≤◌, ◌<◌, ◌≡◌, refl, ◌∙◌, ◌⊎◌, inl, inr, false, Option, none, some, arith, ltb,
  ◌==◌, if◌then◌else◌, ◌>>=◌, ltb→lt, ltb_false→le, Bool-cases,
}
use x_engine_rust.Obj.{Obj}
use x_engine_rust.Tok.{is_blank}
use x_engine_rust.Value.Buffer.{buf_cursor, buf_write}
use x_engine_rust.Reader.{Reader, bump, buf_peek, buf_next_byte, skip_comment, buf_skip_blanks}
use x_engine_rust.Reader.Ahead.{IsView, here, bump_view, peek_inside, peek_end}

-- The cursor has moved forward in the same view, and no byte of the stream was pulled.
pub record Moved {I : Type 0} (r : Reader I) (b : Obj) (t : Reader I) : Type 0 where
  pub view : IsView t.objects b
  pub forward : buf_cursor r.objects b ≤ buf_cursor t.objects b
  pub end_kept : buf_write t.objects b ≡ buf_write r.objects b
  pub stream_kept : t.input ≡ r.input

module _ {I : Type 0} (pull : I → Option ℕ × I) where
  Moved-refl : (r : Reader I) (b : Obj) → IsView r.objects b → Moved r b r
  Moved-refl r b v = record { view = v; forward = omega arith; end_kept = refl; stream_kept = refl }

  pub Moved-bump :
      (r : Reader I) (b : Obj)
      → IsView r.objects b
      → buf_cursor r.objects b < buf_write r.objects b
      → Moved r b (bump pull r b)
        × (buf_cursor (bump pull r b).objects b ≡ buf_cursor r.objects b + 1)
  Moved-bump r b v inside =
      let step = bump_view r.objects b v inside in
      (
        record {
          view = step.view;
          forward = omega (arith, step.moved);
          end_kept = step.write_kept;
          stream_kept = refl;
        },
        step.moved,
      )

  pub Moved-trans : {r t u : Reader I} {b : Obj} → Moved r b t → Moved t b u → Moved r b u
  Moved-trans x y = record {
    view = y.view;
    forward = omega (arith, x.forward, y.forward);
    end_kept = y.end_kept ∙ x.end_kept;
    stream_kept = y.stream_kept ∙ x.stream_kept;
  }

  abbrev after_next : Obj → Option ℕ × Reader I → Option (Option ℕ × Reader I)
  after_next b c = elim c.0 [ none ↦ some (none, c.1) | some x ↦ some (some x, bump pull c.1 b) ]

  next_form :
      (fuel : ℕ) (r : Reader I) (b : Obj)
      → buf_next_byte pull fuel r b
        ≡ (buf_peek pull fuel r b >>= (λ (c : Option ℕ × Reader I). after_next b c))
  next_form fuel r b = unfold buf_next_byte in refl

  abbrev in_comment : ℕ → Obj → Option ℕ × Reader I → Option (Reader I)
  in_comment fuel b c = elim c.0 [
    | none ↦ some c.1
    | some x ↦ if x == 10 then some c.1 else skip_comment pull fuel c.1 b
  ]

  comment_form :
      (fuel : ℕ) (r : Reader I) (b : Obj)
      → skip_comment pull (suc fuel) r b
        ≡ (buf_next_byte pull fuel r b >>= (λ (c : Option ℕ × Reader I). in_comment fuel b c))
  comment_form fuel r b = unfold skip_comment in refl

  abbrev at_blank : ℕ → Obj → Option ℕ × Reader I → Option (Reader I)
  at_blank fuel b c = elim c.0 [
    | none ↦ some c.1
    | some x ↦
        if is_blank x
        then buf_skip_blanks pull fuel (bump pull c.1 b) b
        else if x == 59
        then (skip_comment pull fuel c.1 b >>= (λ r2. buf_skip_blanks pull fuel r2 b))
        else some c.1
  ]

  blanks_form :
      (fuel : ℕ) (r : Reader I) (b : Obj)
      → buf_skip_blanks pull (suc fuel) r b
        ≡ (buf_peek pull fuel r b >>= (λ (c : Option ℕ × Reader I). at_blank fuel b c))
  blanks_form fuel r b = unfold buf_skip_blanks in refl

  next_end :
      (fuel : ℕ) (r : Reader I) (b : Obj)
      → IsView r.objects b
      → buf_write r.objects b ≤ buf_cursor r.objects b
      → buf_next_byte pull (suc fuel) r b ≡ some (none, r)
  next_end fuel r b v past = next_form (suc fuel) r b ∙ rw (peek_end pull fuel r b v.ro past) refl

  next_inside :
      (fuel : ℕ) (r : Reader I) (b : Obj)
      → buf_cursor r.objects b < buf_write r.objects b
      → buf_next_byte pull (suc fuel) r b ≡ some (some (here pull r b), bump pull r b)
  next_inside fuel r b inside =
      next_form (suc fuel) r b ∙ rw (peek_inside pull fuel r b inside) refl

  -- A comment is skipped with fuel for the bytes that are left, and at least one byte of it is read.
  skip_comment-Moved :
      (fuel : ℕ) (r : Reader I) (b : Obj)
      → IsView r.objects b
      → buf_write r.objects b + 2 ≤ buf_cursor r.objects b + fuel
      → (t : Reader I) × (skip_comment pull fuel r b ≡ some t)
        × Moved r b t
        × (buf_cursor r.objects b < buf_write r.objects b
            → buf_cursor r.objects b < buf_cursor t.objects b)
  skip_comment-Moved zero r b v enough = absurd (omega (arith, v.within))
  skip_comment-Moved (suc zero) r b v enough = absurd (omega (arith, v.within))
  skip_comment-Moved (suc (suc fuel)) r b v enough =
      elim (Bool-cases (ltb (buf_cursor r.objects b) (buf_write r.objects b))) [
        | inr e ↦
            let past = ltb_false→le (buf_cursor r.objects b) (buf_write r.objects b) e in
            (
              r,
              comment_form (suc fuel) r b ∙ rw (next_end fuel r b v past) refl,
              Moved-refl r b v,
              λ inside. absurd (omega arith),
            )
        | inl e ↦
            let inside = ltb→lt (buf_cursor r.objects b) (buf_write r.objects b) e in
            let (step, one) = Moved-bump r b v inside in
            elim (Bool-cases (here pull r b == 10)) [
              | inl f ↦ (
                bump pull r b,
                comment_form (suc fuel) r b ∙ rw (next_inside fuel r b inside, f) refl,
                step,
                λ _. omega (arith, one),
              )
              | inr f ↦
                  let (t, run, z, _) =
                    skip_comment-Moved (suc fuel) (bump pull r b) b step.view
                      (omega (arith, one, step.end_kept)) in
                  (
                    t,
                    comment_form (suc fuel) r b ∙ rw (next_inside fuel r b inside, f) run,
                    Moved-trans step z,
                    λ _. omega (arith, one, z.forward),
                  )
            ]
      ]

  -- Where the loop over blanks stops: at the write mark, or at a byte that is neither a blank nor the
  -- start of a comment.
  abbrev pub AtToken : Reader I → Obj → Type 0
  AtToken t b =
      (buf_cursor t.objects b ≡ buf_write t.objects b)
      ⊎ ((is_blank (here pull t b) ≡ false) × ((here pull t b == 59) ≡ false))

  -- On a buffer over a text, with fuel for three more than the bytes from the cursor to the write
  -- mark, the loop over blanks and comments returns. Its cursor has not moved
  -- back nor past the write mark; it stands at the write mark, or at a byte that is neither a blank
  -- nor a semicolon; the write mark is where it was, the buffer is still one over a text, and no
  -- byte of the stream was pulled.
  pub buf_skip_blanks-Moved :
      (fuel : ℕ) (r : Reader I) (b : Obj)
      → IsView r.objects b
      → buf_write r.objects b + 3 ≤ buf_cursor r.objects b + fuel
      → (t : Reader I) × (buf_skip_blanks pull fuel r b ≡ some t) × Moved r b t × AtToken t b
  buf_skip_blanks-Moved zero r b v enough = absurd (omega (arith, v.within))
  buf_skip_blanks-Moved (suc zero) r b v enough = absurd (omega (arith, v.within))
  buf_skip_blanks-Moved (suc (suc fuel)) r b v enough =
      elim (Bool-cases (ltb (buf_cursor r.objects b) (buf_write r.objects b))) [
        | inr e ↦
            let past = ltb_false→le (buf_cursor r.objects b) (buf_write r.objects b) e in
            (
              r,
              blanks_form (suc fuel) r b ∙ rw (peek_end pull fuel r b v.ro past) refl,
              Moved-refl r b v,
              inl (omega (arith, v.within)),
            )
        | inl e ↦
            let inside = ltb→lt (buf_cursor r.objects b) (buf_write r.objects b) e in
            elim (Bool-cases (is_blank (here pull r b))) [
              | inl f ↦
                  let (step, one) = Moved-bump r b v inside in
                  let (t, run, z, at) =
                    buf_skip_blanks-Moved (suc fuel) (bump pull r b) b step.view
                      (omega (arith, one, step.end_kept)) in
                  (
                    t,
                    blanks_form (suc fuel) r b ∙ rw (peek_inside pull fuel r b inside, f) run,
                    Moved-trans step z,
                    at,
                  )
              | inr f ↦ elim (Bool-cases (here pull r b == 59)) [
                | inr g ↦ (
                  r,
                  blanks_form (suc fuel) r b ∙ rw (peek_inside pull fuel r b inside, f, g) refl,
                  Moved-refl r b v,
                  inr (f, g),
                )
                | inl g ↦
                    let (u, skip, y, on) = skip_comment-Moved (suc fuel) r b v (omega arith) in
                    let (t, run, z, at) =
                      buf_skip_blanks-Moved (suc fuel) u b y.view
                        (omega (arith, on inside, y.end_kept)) in
                    (
                      t,
                      blanks_form (suc fuel) r b
                          ∙ rw (peek_inside pull fuel r b inside, f, g, skip) run,
                      Moved-trans y z,
                      at,
                    )
              ]
            ]
      ]
