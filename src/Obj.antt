-- ===== src/Obj.antt =====
-- src/obj.rs: machine words. `Obj`, `Addr`, `Word`, `Flags` and `EnvId` are newtypes over one
-- `u64`; each is a number below 2 ^ 64 here, and the crossings between them, which relabel the
-- same bits, are not written. An `i64` is an integer, and its crossing to a word is.
pub mod Laws
use x_engine_rust.Prelude.{ℕ, ◌+◌, ◌-◌, ◌/◌, ◌%◌, ◌^◌, ◌<◌, Bool, bit_and, ltb, ◌==◌, if◌then◌else◌}
use x_engine_rust.Prelude.Int.{ℤ, pos, negsuc}

abbrev pub Obj : Type 0
Obj = ℕ

abbrev pub Addr : Type 0
Addr = ℕ

abbrev pub Word : Type 0
Word = ℕ

abbrev pub Flags : Type 0
Flags = ℕ

abbrev pub EnvId : Type 0
EnvId = Obj

abbrev pub IsWord : ℕ → Type 0
IsWord w = w < 2 ^ 64

-- `!w` on a `u64`.
abbrev pub bit_not : ℕ → ℕ
bit_not w = 2 ^ 64 - 1 - w

abbrev pub word_bytes : ℕ
word_bytes = 8

abbrev pub nil : Obj
nil = 0

abbrev pub is_nil : Obj → Bool
is_nil o = o == 0

unfoldable pub as_i64 : Word → ℤ
as_i64 w = if ltb w (2 ^ 63) then pos w else negsuc (2 ^ 64 - 1 - w)

unfoldable pub from_i64 : ℤ → Word
from_i64 (pos n) = n % 2 ^ 64
from_i64 (negsuc n) = 2 ^ 64 - 1 - n % 2 ^ 64

unfoldable pub offset : Addr → ℤ → Addr
unfolding from_i64
offset a bytes = (a + from_i64 bytes) % 2 ^ 64

abbrev pub plus : Addr → ℕ → Addr
plus a bytes = (a + bytes) % 2 ^ 64

abbrev pub word_index : Addr → ℕ
word_index a = a / word_bytes

abbrev pub byte_in_word : Addr → ℕ
byte_in_word a = a % word_bytes

unfoldable pub word_base : Addr → Addr
word_base a = bit_and a (bit_not (word_bytes - 1))
