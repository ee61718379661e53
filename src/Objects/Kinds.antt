-- ===== src/Objects/Kinds.antt =====
-- src/objects.rs: the kind codes, and the names that the kinds report.
use x_engine_rust.Prelude.{
  ℕ, ◌+◌, ◌≡◌, refl, inl, inr, ◌||◌, ◌⊎◌, ap, ◌∙◌, zero, suc, ==_iff, Option, none, some, List, [],
  ◌∷◌, arith, ◌==◌, if◌then◌else◌, Bool-cases,
}
use Prim.Native.String.{String}
use Prim.Native.Char.{code}
use x_engine_rust.Obj.{Flags}

abbrev pub flag_prim : Flags
flag_prim = 0x10

abbrev pub flag_fn : Flags
flag_fn = 0x11

abbrev pub flag_int : Flags
flag_int = 0x12

abbrev pub flag_char : Flags
flag_char = 0x13

abbrev pub flag_str : Flags
flag_str = 0x14

abbrev pub flag_ptr : Flags
flag_ptr = 0x15

abbrev pub flag_pair : Flags
flag_pair = 0x0100

abbrev pub flag_spair : Flags
flag_spair = 0x0101

abbrev pub flag_handle : Flags
flag_handle = 0x0102

abbrev pub flag_sym : Flags
flag_sym = 0x0200

abbrev pub flag_false : Flags
flag_false = 0x0400

abbrev pub flag_op : Flags
flag_op = 0x0800

abbrev pub flag_env : Flags
flag_env = 0x1000

abbrev pub flag_envh : Flags
flag_envh = 0x1001

abbrev pub flag_type : Flags
flag_type = 0x2000

abbrev pub flag_iter : Flags
flag_iter = 0x4000

abbrev pub flag_wrap : Flags
flag_wrap = 0x8000

abbrev pub flag_foreign : Flags
flag_foreign = 0x80000

abbrev pub flag_buf : Flags
flag_buf = 0x20000

abbrev pub flag_bufmarks : Flags
flag_bufmarks = 0x20001

abbrev pub flag_cont : Flags
flag_cont = 0x10000

abbrev pub flag_tokeof : Flags
flag_tokeof = 0x100000

abbrev pub stamped_kinds : List (Flags × String)
stamped_kinds =
    (flag_int, "INTEGER")
    ∷ (flag_char, "CHARACTER")
    ∷ (flag_str, "STRING")
    ∷ (flag_sym, "SYMBOL")
    ∷ (flag_pair, "LIST")
    ∷ (flag_ptr, "POINTER")
    ∷ (flag_prim, "PRIMITIVE")
    ∷ (flag_fn, "PROCEDURE")
    ∷ (flag_op, "OPERATIVE")
    ∷ (flag_wrap, "PROCEDURE")
    ∷ (flag_env, "ENVIRONMENT")
    ∷ (flag_type, "TYPE")
    ∷ (flag_iter, "ITER")
    ∷ (flag_buf, "BUFFER")
    ∷ (flag_cont, "CONTINUATION")
    ∷ []

-- The bytes of a name, whose characters are all ASCII.
abbrev pub codes : String → List ℕ
codes String.[] = []
codes (String.◌∷◌ c s) = code c ∷ codes s

-- `iter().position(…)` from place `i` on.
unfoldable pub position : List (Flags × String) → Flags → ℕ → Option ℕ
position [] f i = none
position ((k, name) ∷ kinds) f i = if k == f then some i else position kinds f (i + 1)

unfoldable pub kind_index : Flags → Option ℕ
unfolding position
kind_index f = position stamped_kinds f 0

unfoldable pub reported_kind : Flags → Flags
reported_kind f =
    if f == flag_foreign then flag_prim else if f == flag_wrap || f == flag_cont then flag_fn else f

unfoldable pub find_name : List (Flags × String) → Flags → String
find_name [] f = "BUILTIN"
find_name ((k, name) ∷ kinds) f = if k == f then name else find_name kinds f

unfoldable pub kind_name : Flags → String
unfolding find_name
kind_name f = find_name stamped_kinds f

-- What a kind reports as reports as itself.
pub reported_kind_idem : (f : Flags) → reported_kind (reported_kind f) ≡ reported_kind f
unfolding reported_kind
reported_kind_idem f = ground arith

abbrev pub entry_at : List (Flags × String) → ℕ → Option (Flags × String)
entry_at [] i = none
entry_at (entry ∷ kinds) zero = some entry
entry_at (entry ∷ kinds) (suc i) = entry_at kinds i

name_of_position :
    (kinds : List (Flags × String)) (f : Flags) (i : ℕ)
    → ((position kinds f i ≡ none) × (find_name kinds f ≡ "BUILTIN"))
      ⊎ ((d : ℕ) × (position kinds f i ≡ some (i + d))
          × (entry_at kinds d ≡ some (f, find_name kinds f)))
unfolding position find_name
name_of_position [] f i = inl (refl, refl)
name_of_position ((k, name) ∷ kinds) f i = elim (Bool-cases (k == f)) [
  | inl e ↦
      inr (0, rw e (ap some (omega arith)), rw e (ap (λ z. some (z, name)) ((==_iff k f).0 e)))
  | inr e ↦ elim (name_of_position kinds f (i + 1)) [
    | inl (p, q) ↦ inl (rw e p, rw e q)
    | inr (d, p, q) ↦ inr (suc d, rw e (p ∙ ap some (omega arith)), rw e q)
  ]
]

-- Either a kind is outside the table of stamped kinds, and its name is the common one, or its index
-- is the place of an entry of the table that has this kind and its name.
pub kind_index-kind_name :
    (f : Flags)
    → ((kind_index f ≡ none) × (kind_name f ≡ "BUILTIN"))
      ⊎ ((i : ℕ) × (kind_index f ≡ some i) × (entry_at stamped_kinds i ≡ some (f, kind_name f)))
unfolding kind_index kind_name
kind_index-kind_name f = elim (name_of_position stamped_kinds f 0) [
  | inl z ↦ inl z
  | inr (i, p, q) ↦ inr (i, p ∙ ap some (omega arith), q)
]
