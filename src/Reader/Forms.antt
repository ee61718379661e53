-- ===== src/Reader/Forms.antt =====
-- src/read.rs: lists and forms. The parameters are those of Literals.
use x_engine_rust.Prelude.{
  ℕ, zero, suc, Bool, true, false, ◌||◌, Option, none, some, List, [], ◌∷◌, ◌==◌, if◌then◌else◌,
  ◌>>=◌,
}
use x_engine_rust.Prelude.Int.{ℤ}
use x_engine_rust.Obj.{Obj, nil}
use x_engine_rust.Objects.{Objects}
use x_engine_rust.Tok.{is_blank}
use x_engine_rust.Value.Make.{pair}
use x_engine_rust.Reader.Literals.{buf_read_string, buf_read_char, buf_read_atom}
use x_engine_rust.Reader.{Reader, with_objects, bump, buf_byte_ahead, buf_peek, buf_skip_blanks}

module _ {I : Type 0} (pull : I → Option ℕ × I) (lossy : List ℕ → List ℕ)
    (parse : List ℕ → Option ℤ) (first_char : List ℕ → ℕ) where
  unfoldable pub buf_dot_is_a_separator : ℕ → Reader I → Obj → Option (Bool × Reader I)
  unfolding buf_byte_ahead is_blank
  buf_dot_is_a_separator fuel r b = do
    (c, r1) ← buf_byte_ahead pull fuel r b 1
    elim c [ none ↦ some (true, r1) | some x ↦ some (is_blank x || x == 40 || x == 41, r1) ]

  unfoldable pub buf_at_dot_separator : ℕ → Reader I → Obj → Option (Bool × Reader I)
  unfolding buf_peek buf_dot_is_a_separator
  buf_at_dot_separator fuel r b = do
    (c, r1) ← buf_peek pull fuel r b
    elim c [
      | none ↦ some (false, r1)
      | some x ↦ elim (x == 46) [
        | true ↦ buf_dot_is_a_separator fuel r1 b
        | false ↦ some (false, r1)
      ]
    ]

  -- A closing parenthesis, if it is next.
  unfoldable pub skip_close : ℕ → Reader I → Obj → Option (Reader I)
  unfolding buf_peek
  skip_close fuel r b = do
    (c, r1) ← buf_peek pull fuel r b
    elim c [ none ↦ some r1 | some x ↦ some (if x == 41 then bump pull r1 b else r1) ]

  -- The items, the last first, as pairs onto the tail.
  unfoldable pub list_onto : ℕ → Objects → List Obj → Obj → Option (Obj × Objects)
  unfolding pair
  list_onto fuel s [] out = some (out, s)
  list_onto fuel s (o ∷ items) out = do (out, s) ← pair fuel s o out; list_onto fuel s items out

  -- The list that ends with `out`.
  abbrev pub close : ℕ → Reader I → List Obj → Obj → Option (Option Obj × Reader I)
  close fuel r items out = do
    (o, s) ← list_onto fuel r.objects items out
    some (some o, with_objects r s)

  -- What `#` begins, with whether it is a character literal.
  unfoldable pub at_char : ℕ → Reader I → Obj → Option (Bool × Reader I)
  unfolding buf_byte_ahead
  at_char fuel r b = do
    (c, r1) ← buf_byte_ahead pull fuel r b 1
    elim c [ none ↦ some (false, r1) | some x ↦ some (x == 92, r1) ]

  -- The builtin forms that are neither a list nor an atom.
  unfoldable pub buf_read_one_builtin_except_atom :
      ℕ → Reader I → Obj → Option (Option Obj × Reader I)
  unfolding buf_peek at_char buf_read_string buf_read_char
  buf_read_one_builtin_except_atom fuel r b = do
    (c, r1) ← buf_peek pull fuel r b
    elim c [
      | none ↦ some (none, r1)
      | some x ↦ elim (x == 41) [
        | true ↦ some (some nil, bump pull r1 b)
        | false ↦ elim (x == 34) [
          | true ↦ do
            (o, r2) ← buf_read_string pull lossy parse first_char fuel (bump pull r1 b) b
            some (some o, r2)
          | false ↦ elim (x == 35) [
            | false ↦ some (none, r1)
            | true ↦ do
              (is_literal, r2) ← at_char fuel r1 b
              elim is_literal [
                | false ↦ some (none, r2)
                | true ↦ do
                  (o, r3) ←
                      buf_read_char pull lossy parse first_char fuel (bump pull (bump pull r2 b) b)
                        b
                  some (some o, r3)
              ]
          ]
        ]
      ]
    ]

  unfoldable mutual
    unfolding buf_skip_blanks buf_peek at_char buf_read_string buf_read_char buf_read_atom list_onto
        buf_dot_is_a_separator skip_close

    -- One form, or `none` at the end of input.
    pub buf_read_form : ℕ → Reader I → Obj → Option (Option Obj × Reader I)
    buf_read_form zero r b = none
    buf_read_form (suc fuel) r b = do
      r1 ← buf_skip_blanks pull fuel r b
      (c, r2) ← buf_peek pull fuel r1 b
      elim c [
        | none ↦ some (none, r2)
        | some x ↦ elim (x == 40) [
          | true ↦ read_items fuel (bump pull r2 b) b []
          | false ↦ elim (x == 41) [
            | true ↦ some (some nil, bump pull r2 b)
            | false ↦ elim (x == 34) [
              | true ↦ do
                (o, r3) ← buf_read_string pull lossy parse first_char fuel (bump pull r2 b) b
                some (some o, r3)
              | false ↦ do
                (is_literal, r3) ← (if x == 35 then at_char fuel r2 b else some (false, r2))
                elim is_literal [
                  | true ↦ do
                    (o, r4) ←
                        buf_read_char pull lossy parse first_char fuel
                          (bump pull (bump pull r3 b) b) b
                    some (some o, r4)
                  | false ↦ do
                    (o, r4) ← buf_read_atom pull lossy parse first_char fuel r3 b
                    some (some o, r4)
                ]
            ]
          ]
        ]
      ]

    -- The loop of `buf_read_list`, with the items read, the last first, and its end.
    pub read_items : ℕ → Reader I → Obj → List Obj → Option (Option Obj × Reader I)
    read_items zero r b items = none
    read_items (suc fuel) r b items = do
      r1 ← buf_skip_blanks pull fuel r b
      (c, r2) ← buf_peek pull fuel r1 b
      elim c [
        | none ↦ close fuel r2 items nil
        | some x ↦ elim (x == 41) [
          | true ↦ close fuel (bump pull r2 b) items nil
          | false ↦ do
            (dot, r3) ← (if x == 46 then buf_dot_is_a_separator fuel r2 b else some (false, r2))
            elim dot [
              | true ↦ do
                r4 ← buf_skip_blanks pull fuel (bump pull r3 b) b
                (t, r5) ← buf_read_form fuel r4 b
                r6 ← buf_skip_blanks pull fuel r5 b
                r7 ← skip_close fuel r6 b
                close fuel r7 items (elim t [ some o ↦ o | none ↦ nil ])
              | false ↦ do
                (o, r4) ← buf_read_form fuel r3 b
                elim o [
                  | some item ↦ read_items fuel r4 b (item ∷ items)
                  | none ↦ close fuel r4 items nil
                ]
            ]
        ]
      ]

  unfoldable pub buf_read_list : ℕ → Reader I → Obj → Option (Option Obj × Reader I)
  unfolding read_items
  buf_read_list fuel r b = read_items fuel r b []
