-- ===== src/Tests/Words.antt =====
-- Machine words, integers and kinds at concrete values.
use x_engine_rust.Prelude.{ℕ, some, none, ◌+◌, ◌-◌, ◌*◌, ◌^◌, ◌<◌, ◌≡◌, ◌⊎◌, arith}
use x_engine_rust.Prelude.Int.{pos, negsuc, ◌+ℤ◌, ◌*ℤ◌, ◌≤ℤ◌}
use x_engine_rust.Obj.{word_bytes, as_i64, from_i64, word_index, word_base}
use x_engine_rust.Obj.Laws.{as_i64-from_i64, from_i64-as_i64, word_base_lem}
use x_engine_rust.Objects.{kind_bits}
use x_engine_rust.Objects.Layout.{stored_flags, kind_bits-stored_flags}
use x_engine_rust.Objects.Kinds.{
  flag_pair, flag_wrap, reported_kind, reported_kind_idem, kind_index, kind_name,
  kind_index-kind_name, entry_at, stamped_kinds,
}
use x_engine_rust.Num.{min_i64, shift_count, shr, magnitude, div, rem}
use x_engine_rust.Num.Division.{div-rem, shr_floor}

as_i64-from_i64_example : as_i64 (from_i64 (negsuc 4)) ≡ negsuc 4
as_i64-from_i64_example = as_i64-from_i64 (negsuc 4) (omega arith) (omega arith)

from_i64-as_i64_example : from_i64 (as_i64 (2 ^ 63 + 5)) ≡ 2 ^ 63 + 5
from_i64-as_i64_example = from_i64-as_i64 (2 ^ 63 + 5) (omega arith)

word_base_lem_example : word_base 13 ≡ word_index 13 * word_bytes
word_base_lem_example = word_base_lem 13 (omega arith)

kind_bits-stored_flags_example : kind_bits (stored_flags flag_pair 2) ≡ flag_pair
kind_bits-stored_flags_example =
    kind_bits-stored_flags flag_pair 2 (record { low = omega arith; high = omega arith })
      (omega arith)

reported_kind_idem_example : reported_kind (reported_kind flag_wrap) ≡ reported_kind flag_wrap
reported_kind_idem_example = reported_kind_idem flag_wrap

kind_index-kind_name_example :
    ((kind_index flag_wrap ≡ none) × (kind_name flag_wrap ≡ "BUILTIN"))
    ⊎ ((i : ℕ) × (kind_index flag_wrap ≡ some i)
        × (entry_at stamped_kinds i ≡ some (flag_wrap, kind_name flag_wrap)))
kind_index-kind_name_example = kind_index-kind_name flag_wrap

-- -7 / 2.
div-rem_example :
    ((div (negsuc 6) (pos 2) *ℤ pos 2) +ℤ rem (negsuc 6) (pos 2) ≡ negsuc 6)
      × (magnitude (rem (negsuc 6) (pos 2)) < magnitude (pos 2))
    ⊎ ((pos 2 ≡ pos 0) ⊎ ((negsuc 6 ≡ min_i64) × (pos 2 ≡ negsuc 0)))
      × (div (negsuc 6) (pos 2) ≡ pos 0)
      × (rem (negsuc 6) (pos 2) ≡ pos 0)
div-rem_example = div-rem (negsuc 6) (pos 2)

-- -16 >> 66, whose count is masked to 2.
shr_floor_example :
    (shr (negsuc 15) (pos 66) *ℤ pos (2 ^ shift_count (pos 66)) ≤ℤ negsuc 15)
    × (negsuc 15
        ≤ℤ (shr (negsuc 15) (pos 66) *ℤ pos (2 ^ shift_count (pos 66)))
          +ℤ pos (2 ^ shift_count (pos 66) - 1))
shr_floor_example = shr_floor (negsuc 15) (pos 66)
