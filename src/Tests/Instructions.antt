-- ===== src/Tests/Instructions.antt =====
-- Names, pointer accesses, decimal tokens and handler places at concrete values.
use x_engine_rust.Prelude.{ℕ, ◌*◌, ◌%◌, ◌^◌, ◌≡◌, refl, List, [], ◌∷◌, arith, get_or, set}
use x_engine_rust.Prelude.Int.{pos, negsuc}
use x_engine_rust.Obj.{from_i64, offset}
use x_engine_rust.Heap.{write_le}
use x_engine_rust.Pointer.{clamp_width, ptr_ref, ptr_set}
use x_engine_rust.Pointer.Wide.{ptr_ref-ptr_set}
use x_engine_rust.Tok.{token_value}
use x_engine_rust.Tok.Value.{decimal, digit_chars, token_value-decimal}
use x_engine_rust.Typed.{Family}
use x_engine_rust.Typed.Places.{handler_slot-injective}
use x_engine_rust.Tests.{four_words, four_words-IsValid}

-- The memory of a process as a list of bytes, zero past its end.
abbrev Bytes : Type 0
Bytes = List ℕ

abbrev read_byte : Bytes → ℕ → ℕ
read_byte m at = get_or m at 0

abbrev write_byte : Bytes → ℕ → ℕ → Bytes
write_byte m at v = set m at v

-- Ten bytes asked for, of which eight are written, at four below 20.
ptr_ref-ptr_set_example :
    (ptr_set Bytes read_byte write_byte four_words [] 20 (negsuc 3) 0xcafe (pos 10)
      ≡ (write_le four_words (offset 20 (negsuc 3)) 0xcafe (clamp_width (pos 10)), []))
    × (ptr_ref Bytes read_byte write_byte
          (ptr_set Bytes read_byte write_byte four_words [] 20 (negsuc 3) 0xcafe (pos 10)).0
          []
          20
          (negsuc 3)
          (pos 10)
        ≡ 0xcafe % 2 ^ (8 * clamp_width (pos 10)))
unfolding offset from_i64
ptr_ref-ptr_set_example =
    ptr_ref-ptr_set Bytes read_byte write_byte four_words-IsValid [] 20 (negsuc 3) 0xcafe (pos 10)
      (omega arith) (omega arith)

-- The token 019.
token_value-decimal_example :
    token_value (digit_chars (0 ∷ 1 ∷ 9 ∷ [])) ≡ pos (decimal 0 (0 ∷ 1 ∷ 9 ∷ []))
token_value-decimal_example =
    token_value-decimal 0 (1 ∷ 9 ∷ []) (omega arith, (omega arith, (omega arith, tt))) (omega arith)

handler_slot-injective_example : Family.read ≡ Family.read
handler_slot-injective_example = handler_slot-injective Family.read Family.read refl
