-- ===== src/Typed/Builtin.antt =====
-- src/objects.rs: the type word of a new object. A kind's type is found in the type-alist of the
-- current base, or built and filed there; `alloc` is whole behind it. The walk of the alist is on
-- fuel, and `none` means that it ran out or that the arena's reservation is exhausted.
use x_engine_rust.Prelude.{
  ℕ, zero, suc, Bool, not, ◌&&◌, ◌||◌, Option, none, some, List, [], ◌∷◌, ◌==◌, if◌then◌else◌,
  ◌>>=◌, get_or, set,
}
use x_engine_rust.Obj.{Obj, Flags, nil, is_nil}
use x_engine_rust.Objects.{Objects, type_of_word, first, rest, lay_out, count_alloc}
use x_engine_rust.Objects.Kinds.{
  flag_int, flag_sym, flag_pair, flag_spair, flag_handle, flag_fn, flag_wrap, flag_op, flag_prim,
  flag_cont, kind_index, kind_name, reported_kind, codes,
}
use x_engine_rust.Value.{spair}
use x_engine_rust.Value.Text.{handle}
use x_engine_rust.Base.{get, set_slot}
use x_engine_rust.Typed.{analyse, read, eval, call, type_bare, type_set_handler, handle_of_type}
use Prim.Native.String.{String}

abbrev pub type_alist : ℕ
type_alist = 1

-- `HashMap::get` of `other_kind_handles`.
abbrev pub kind_entry : List (Flags × Obj) → Flags → Option Obj
kind_entry [] f = none
kind_entry ((k, h) ∷ m) f = if k == f then some h else kind_entry m f

unfoldable pub kind_handle : Objects → Flags → String → Option (Obj × Objects)
unfolding kind_index handle
kind_handle s f text = elim (kind_index f) [
  | none ↦ elim (kind_entry s.other_kind_handles f) [
    | some h ↦ some (h, s)
    | none ↦ do
      (h, s1) ← handle s (codes text)
      some (h, record s1 { other_kind_handles = (f, h) ∷ s1.other_kind_handles })
  ]
  | some i ↦
      let h = get_or s.kind_handles i nil in
      if not (is_nil h) then some (h, s) else (do
        (h1, s1) ← handle s (codes text)
        some (h1, record s1 { kind_handles = set s1.kind_handles i h1 }))
]

-- Whether a kind is of `CALL_HANDLER_KINDS`.
abbrev pub is_callable_kind : Flags → Bool
is_callable_kind key =
    flag_fn == key || flag_wrap == key || flag_op == key || flag_prim == key || flag_cont == key

-- The handlers that a builtin kind's type is born with.
unfoldable pub install_builtin : Objects → Flags → Obj → Objects
unfolding type_set_handler
install_builtin s key t =
    let s1 =
      if key == flag_int
      then type_set_handler (type_set_handler s t analyse (get_or s.int_states 0 nil)) t read
          s.int_read
      else s in
    let s2 =
      if key == flag_sym then type_set_handler s1 t eval (get_or s1.eval_handlers 0 nil) else s1 in
    let s3 =
      if key == flag_pair
      then type_set_handler (type_set_handler s2 t eval (get_or s2.eval_handlers 1 nil)) t call
          s2.list_call_handler
      else s2 in
    if is_callable_kind key then type_set_handler s3 t call s3.callable_call_handler else s3

unfoldable pub builtin_type_new : Objects → Flags → Option (Obj × Objects)
unfolding kind_handle type_bare install_builtin
builtin_type_new s key = do
  (name, s1) ← kind_handle s key (kind_name key)
  (t, s2) ← type_bare s1 name
  some (t, install_builtin s2 key t)

-- The walk of `builtin_type_in` from the alist cell `at`.
unfoldable pub filed_type : ℕ → Objects → Obj → Obj → Option (Option Obj)
unfolding first rest
filed_type zero s at h = if is_nil at then some none else none
filed_type (suc fuel) s at h =
    let entry = first s at in
    let more = filed_type fuel s (rest s at) h in
    if is_nil at then some none else if first s entry == h then some (some (rest s entry)) else more

-- The type is built and filed at the head of the alist.
unfoldable pub file_builtin : Objects → Obj → Flags → Obj → Option (Obj × Objects)
unfolding builtin_type_new spair get set_slot
file_builtin s base key h = do
  (t, s1) ← builtin_type_new s key
  (entry, s2) ← spair s1 h t
  (cell, s3) ← spair s2 entry (get s2 base type_alist)
  some (t, set_slot s3 base type_alist cell)

unfoldable pub builtin_type_in : ℕ → Objects → Obj → Flags → Option (Obj × Objects)
unfolding reported_kind kind_handle kind_name filed_type get file_builtin
builtin_type_in fuel s base f = do
  let key = reported_kind f
  (h, s1) ← kind_handle s key (kind_name key)
  found ← filed_type fuel s1 (get s1 base type_alist) h
  elim found [ some t ↦ some (t, s1) | none ↦ file_builtin s1 base key h ]

unfoldable pub stamp_for : ℕ → Objects → Flags → Option (Obj × Objects)
unfolding builtin_type_in
stamp_for fuel s f =
    if f == flag_spair
    then some (s.spair_marker, s)
    else if f == flag_handle
    then some (s.satom_marker, s)
    else if is_nil s.base
    then some (nil, s)
    else builtin_type_in fuel s s.base f

unfoldable pub alloc : ℕ → Objects → Flags → ℕ → Option (Obj × Objects)
unfolding count_alloc stamp_for lay_out
alloc fuel s f n = do (ty, s1) ← stamp_for fuel (count_alloc s) f; lay_out s1 ty f n

-- A label other than the two markers is the type; a structural pair reports as a pair.
unfoldable pub obj_type : ℕ → Objects → Obj → Option (Obj × Objects)
unfolding type_of_word builtin_type_in
obj_type fuel s o =
    let carried = type_of_word s o in
    if is_nil o
    then some (nil, s)
    else if not (is_nil carried)
        && not (carried == s.spair_marker)
        && not (carried == s.satom_marker)
    then some (carried, s)
    else if carried == s.spair_marker && not (is_nil s.base)
    then builtin_type_in fuel s s.base flag_pair
    else some (nil, s)

unfoldable pub type_of : ℕ → Objects → Obj → Option (Obj × Objects)
unfolding obj_type handle_of_type
type_of fuel s o = do
  (ty, s1) ← obj_type fuel s o
  some (if is_nil ty then nil else handle_of_type s1 ty, s1)
