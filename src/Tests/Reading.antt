-- ===== src/Tests/Reading.antt =====
-- A buffer over the text `42 ;`, newline, `7`: its digits, then the blank and the comment.
use x_engine_rust.Prelude.{
  ℕ, ◌≡◌, refl, inr, Bool, true, ◌&&◌, Option, none, some, List, [], ◌∷◌, arith, leb,
}
use x_engine_rust.Obj.{Word}
use x_engine_rust.Heap.Words.{IsValid}
use x_engine_rust.Heap.{word}
use x_engine_rust.Objects.{Objects, data_word, flag_magic_bit}
use x_engine_rust.Value.Buffer.{marks, buf_cursor, buf_write, buf_ro}
use x_engine_rust.Reader.{Reader, bump, take_while, buf_skip_blanks}
use x_engine_rust.Reader.Ahead.{IsView, Ended, take_while-Ended}
use x_engine_rust.Reader.Blanks.{Moved, Moved-bump, Moved-trans, AtToken, buf_skip_blanks-Moved}
use x_engine_rust.Tests.{store, All-bounded}

-- The marks at 8, the buffer at 56, the string at 144 and its bytes at 184.
abbrev text_words : List Word
text_words =
    0 ∷ 0 ∷ 0 ∷ flag_magic_bit ∷ 2 ∷ 0 ∷ 6 ∷ 8 ∷ 0 ∷ flag_magic_bit ∷ 7 ∷ 0 ∷ 8 ∷ 144 ∷ 1 ∷ 0 ∷ 1
    ∷ 0 ∷ 56 ∷ 0 ∷ flag_magic_bit ∷ 1 ∷ 184 ∷ 0x370a3b203234 ∷ []

abbrev text_store : Objects
text_store = record store { heap = record { words = text_words; allocations = 3; capacity = 1024 } }

text_store-IsValid : IsValid text_store.heap
text_store-IsValid = record {
  reserved = omega arith;
  within = omega arith;
  small = omega arith;
  bounded = All-bounded text_words (
    omega arith,
    (
      omega arith,
      (
        omega arith,
        (
          omega arith,
          (
            omega arith,
            (
              omega arith,
              (
                omega arith,
                (
                  omega arith,
                  (
                    omega arith,
                    (
                      omega arith,
                      (
                        omega arith,
                        (
                          omega arith,
                          (
                            omega arith,
                            (
                              omega arith,
                              (
                                omega arith,
                                (
                                  omega arith,
                                  (
                                    omega arith,
                                    (
                                      omega arith,
                                      (
                                        omega arith,
                                        (
                                          omega arith,
                                          (
                                            omega arith,
                                            (omega arith, (omega arith, (omega arith, tt))),
                                          ),
                                        ),
                                      ),
                                    ),
                                  ),
                                ),
                              ),
                            ),
                          ),
                        ),
                      ),
                    ),
                  ),
                ),
              ),
            ),
          ),
        ),
      ),
    ),
  );
}

marks_at : marks text_store 56 ≡ 8
unfolding data_word word
marks_at = refl

cursor_at : buf_cursor text_store 56 ≡ 0
unfolding buf_cursor word
cursor_at = refl

write_at : buf_write text_store 56 ≡ 6
unfolding buf_write word
write_at = refl

read_only : buf_ro text_store 56 ≡ true
unfolding buf_ro word
read_only = refl

text_store-IsView : IsView text_store 56
text_store-IsView = record {
  valid = text_store-IsValid;
  place = record { ne_nil = λ z. omega arith; aligned = omega arith; inside = omega arith };
  marks_place =
      rw marks_at
        (record { ne_nil = λ z. omega arith; aligned = omega arith; inside = omega arith });
  apart = rw marks_at (inr (omega arith));
  ro = read_only;
  within = omega (arith, cursor_at, write_at);
}

-- There is no stream behind it.
abbrev no_stream : ℕ → Option ℕ × ℕ
no_stream n = (none, n)

abbrev is_digit : ℕ → Bool
is_digit c = leb 48 c && leb c 57

abbrev text_reader : Reader ℕ
text_reader = record { objects = text_store; input = none; input_cap = 0 }

take_while-Ended_example :
    (t : Reader ℕ) × (take_while no_stream 8 is_digit text_reader 56 ≡ some t)
    × Ended no_stream is_digit text_reader 56 t
take_while-Ended_example =
    take_while-Ended no_stream 8 is_digit text_reader 56 text_store-IsView
      (omega (arith, cursor_at, write_at))

-- The reader past its first two bytes.
abbrev past_digits : Reader ℕ
past_digits = bump no_stream (bump no_stream text_reader 56) 56

past_digits-Moved : Moved text_reader 56 past_digits × (buf_cursor past_digits.objects 56 ≡ 2)
past_digits-Moved =
    let (m, one) =
      Moved-bump no_stream text_reader 56 text_store-IsView (omega (arith, cursor_at, write_at)) in
    let (n, two) =
      Moved-bump no_stream (bump no_stream text_reader 56) 56 m.view
        (omega (arith, cursor_at, write_at, one, m.end_kept)) in
    (Moved-trans no_stream m n, omega (arith, cursor_at, one, two))

buf_skip_blanks-Moved_example :
    (t : Reader ℕ) × (buf_skip_blanks no_stream 7 past_digits 56 ≡ some t)
    × Moved past_digits 56 t
    × AtToken no_stream t 56
buf_skip_blanks-Moved_example =
    buf_skip_blanks-Moved no_stream 7 past_digits 56 past_digits-Moved.0.view
      (omega (arith, write_at, past_digits-Moved.0.end_kept, past_digits-Moved.1))
