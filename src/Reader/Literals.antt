-- ===== src/Reader/Literals.antt =====
-- src/read.rs: strings, characters and atoms. The text of bytes, the number that a
-- text parses as and its first character are the standard library's, and are parameters.
use x_engine_rust.Prelude.{
  ℕ, zero, suc, ◌+◌, ◌-◌, ◌*◌, bit_and, Bool, true, false, not, ◌&&◌, ◌||◌, Option, none, some,
  List, [], ◌∷◌, reverse, leb, ◌==◌, if◌then◌else◌, ◌>>=◌, length,
}
use x_engine_rust.Prelude.Int.{ℤ}
use x_engine_rust.Obj.{Obj, nil}
use x_engine_rust.Objects.{Objects}
use x_engine_rust.Objects.Kinds.{codes}
use x_engine_rust.Symbols.{same_name}
use x_engine_rust.Tok.{is_blank, hex_digit}
use x_engine_rust.Value.Buffer.{buf_cursor, set_buf_cursor, buf_slice}
use x_engine_rust.Value.Make.{int, char_new, str_from_bytes, sym}
use x_engine_rust.Reader.{
  Reader, with_objects, bump, buf_byte_ahead, buf_peek, buf_next_byte, take_while,
}

-- The byte of a simple escape.
abbrev pub escape_byte : ℕ → Option ℕ
escape_byte e =
    if e == 34
    then some 34
    else if e == 92
    then some 92
    else if e == 110
    then some 10
    else if e == 116
    then some 9
    else if e == 114
    then some 13
    else if e == 48
    then some 0
    else none

abbrev pub is_letter : ℕ → Bool
is_letter c = leb 65 c && leb c 90 || leb 97 c && leb c 122

abbrev pub is_continuation : ℕ → Bool
is_continuation c = bit_and c 0xc0 == 0x80

-- Whether an atom goes on at a byte.
abbrev pub is_atom_byte : ℕ → Bool
is_atom_byte c = not (is_blank c || c == 40 || c == 41 || c == 59)

abbrev pub char_names : List (List ℕ × ℕ)
char_names =
    (codes "alarm", 7)
    ∷ (codes "backspace", 8)
    ∷ (codes "delete", 127)
    ∷ (codes "escape", 27)
    ∷ (codes "newline", 10)
    ∷ (codes "null", 0)
    ∷ (codes "return", 13)
    ∷ (codes "space", 32)
    ∷ (codes "tab", 9)
    ∷ []

unfoldable pub named_char : List (List ℕ × ℕ) → List ℕ → Option ℕ
unfolding same_name
named_char [] name = none
named_char ((n, c) ∷ names) name = if same_name n name then some c else named_char names name

module _ {I : Type 0} (pull : I → Option ℕ × I) (lossy : List ℕ → List ℕ)
    (parse : List ℕ → Option ℤ) (first_char : List ℕ → ℕ) where
  -- An answer of a constructor, in the state of the reader.
  abbrev pub built : Reader I → Option (Obj × Objects) → Option (Obj × Reader I)
  built r made = do (o, s) ← made; some (o, with_objects r s)

  -- The digits of `\x`, consumed if both are there; the bytes pushed, the last first.
  unfoldable pub hex_escape : ℕ → Reader I → Obj → List ℕ → Option (List ℕ × Reader I)
  unfolding buf_peek buf_byte_ahead hex_digit
  hex_escape fuel r b acc = do
    (h, r1) ← buf_peek pull fuel r b
    (l, r2) ← buf_byte_ahead pull fuel r1 b 1
    elim (h >>= hex_digit) [
      | none ↦ some (120 ∷ 92 ∷ acc, r2)
      | some high ↦ elim (l >>= hex_digit) [
        | none ↦ some (120 ∷ 92 ∷ acc, r2)
        | some low ↦ some ((high * 16 + low) ∷ acc, bump pull (bump pull r2 b) b)
      ]
    ]

  -- The bytes of a string literal behind its opening quote, onto those read, the last first.
  unfoldable pub string_loop : ℕ → Reader I → Obj → List ℕ → Option (List ℕ × Reader I)
  unfolding buf_next_byte hex_escape
  string_loop zero r b acc = none
  string_loop (suc fuel) r b acc = do
    (c, r1) ← buf_next_byte pull fuel r b
    elim c [
      | none ↦ some (acc, r1)
      | some x ↦ elim (x == 34) [
        | true ↦ some (acc, r1)
        | false ↦ elim (x == 92) [
          | false ↦ string_loop fuel r1 b (x ∷ acc)
          | true ↦ do
            (e, r2) ← buf_next_byte pull fuel r1 b
            elim e [
              | none ↦ some (acc, r2)
              | some y ↦ elim (y == 120) [
                | true ↦ do (acc1, r3) ← hex_escape fuel r2 b acc; string_loop fuel r3 b acc1
                | false ↦ elim (escape_byte y) [
                  | some z ↦ string_loop fuel r2 b (z ∷ acc)
                  | none ↦ string_loop fuel r2 b (y ∷ 92 ∷ acc)
                ]
              ]
            ]
        ]
      ]
    ]

  unfoldable pub buf_read_string : ℕ → Reader I → Obj → Option (Obj × Reader I)
  unfolding string_loop str_from_bytes
  buf_read_string fuel r b = do
    (acc, r1) ← string_loop fuel r b []
    built r1 (str_from_bytes fuel r1.objects (reverse acc))

  -- A name of letters behind `#\`, from the mark `start`; its first letter is `c`.
  unfoldable pub letter_name : ℕ → Reader I → Obj → ℕ → ℕ → Option (Obj × Reader I)
  unfolding take_while buf_slice buf_cursor named_char set_buf_cursor char_new
  letter_name fuel r b start c = do
    r1 ← take_while pull fuel is_letter r b
    let s = r1.objects
    let name = lossy (buf_slice s b start (buf_cursor s b))
    elim (length name == 1) [
      | true ↦ built r1 (char_new fuel s c)
      | false ↦ elim (named_char char_names name) [
        | some code ↦ built r1 (char_new fuel s code)
        | none ↦ built r1 (char_new fuel (set_buf_cursor s b (start + 1)) c)
      ]
    ]

  unfoldable pub buf_read_char : ℕ → Reader I → Obj → Option (Obj × Reader I)
  unfolding buf_peek take_while buf_slice buf_cursor char_new letter_name
  buf_read_char fuel r b = do
    (c, r1) ← buf_peek pull fuel r b
    elim c [
      | none ↦ some (nil, r1)
      | some x ↦
          let r2 = bump pull r1 b in
          let start = buf_cursor r2.objects b - 1 in
          elim (leb 0x80 x) [
            | true ↦ do
              r3 ← take_while pull fuel is_continuation r2 b
              let s = r3.objects
              built r3 (char_new fuel s (first_char (lossy (buf_slice s b start (buf_cursor s b)))))
            | false ↦ elim (is_letter x) [
              | false ↦ built r2 (char_new fuel r2.objects x)
              | true ↦ letter_name fuel r2 b start x
            ]
          ]
    ]

  -- The atom between two marks: an integer if its text parses as one, and else a symbol.
  unfoldable pub buf_atom_from : ℕ → Reader I → Obj → ℕ → ℕ → Option (Obj × Reader I)
  unfolding buf_slice int sym
  buf_atom_from fuel r b start end =
      let text = lossy (buf_slice r.objects b start end) in
      elim (length text == 0) [
        | true ↦ some (nil, bump pull r b)
        | false ↦ elim (parse text) [
          | some v ↦ built r (int fuel r.objects v)
          | none ↦ built r (sym fuel r.objects text)
        ]
      ]

  unfoldable pub buf_read_atom : ℕ → Reader I → Obj → Option (Obj × Reader I)
  unfolding buf_cursor take_while buf_atom_from
  buf_read_atom fuel r b = do
    r1 ← take_while pull fuel is_atom_byte r b
    buf_atom_from fuel r1 b (buf_cursor r.objects b) (buf_cursor r1.objects b)
