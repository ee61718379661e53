-- ===== src/Engine/Tables.antt =====
-- The tables of instructions in src/syntax/ and src/prims/: names, coordinates and arities with the
-- functions. A bound name and a coordinate come from one row.
use x_engine_rust.Prelude.{
  ℕ, zero, suc, ◌+◌, ◌%◌, ◌/◌, Bool, not, ◌&&◌, ◌||◌, Option, none, some, List, [], ◌∷◌, ◌++◌, ◌==◌,
  ltb, if◌then◌else◌, bit_and,
}
use x_engine_rust.Prelude.Int.{ltb_ℤ, beq_ℤ, pos}
use x_engine_rust.Obj.{Obj, is_nil, bit_not}
use x_engine_rust.Heap.{words_len}
use x_engine_rust.Objects.{Objects, flags_word, data_word, data_len, chain_next, meta_len}
use x_engine_rust.Objects.Kinds.{codes, flag_pair, flag_spair, flag_envh}
use x_engine_rust.Collect.{mark_bit}
use x_engine_rust.Value.Make.{int}
use x_engine_rust.Num.{
  wrapping_add, wrapping_mul, int_and, int_or, int_xor, int_not, shl, shr, div, rem,
}
use x_engine_rust.Instructions.{
  str_make_prim, str_byte_len, str_byte_ref, str_byte_sub, str_append, str_to_sym, sym_to_str,
  bytes_to_str, char_to_int, int_to_char, eq_prim, same_prim, pair_prim, make_callable, iter_make,
}
use x_engine_rust.Instructions.Counts.{first_prim, rest_prim, mark_hooks, free_hooks, mark_roots}
use x_engine_rust.Engine.{M, walks, makes, ◌>>=◌, Host, Door, PrimDef, row}
use x_engine_rust.Engine.Operators.{tower2, tower_pred, int2, int1, subtract}
use x_engine_rust.Engine.Syntax.{
  def, set_bang, func, operative_prim, seq, error_prim, guard, match_prim, lit,
}
use x_engine_rust.Engine.Doors.{
  sym_eval, list_eval, callable_call, procedure_entry, operative_entry, wrap_entry, cont_entry,
  list_call, eval_in, eval_here, apply_prim, base_prim, wrap_row, unwrap_row, tail_eval,
}
use x_engine_rust.Engine.Escape.{call_cc, cc_invoke}
use x_engine_rust.Engine.Bases.{base_make, base_eval, base_bind}
use x_engine_rust.Engine.Rows.{
  uniform_value, uniform_engine, arg, iter_next, iter_empty, iter_step_prim, type_of_prim, type_is,
  make_instance, obj_make, heap_collect, heap_count_prim, heap_part, heap_pin, heap_list,
  alloc_limit_prim,
}

-- Whether a slot of an object holds a word that is no object.
unfoldable pub bad_slot : Objects → Obj → ℕ → Bool
unfolding data_len data_word
bad_slot s at i =
    let w = data_word s at i in
    ltb i (data_len s at)
    && (not (w == 0) && (not (w % 8 == 0) || ltb (words_len s.heap) (w / 8 + meta_len)))

abbrev one_if : Bool → ℕ
one_if b = if b then 1 else 0

-- The bad slots among those that are checked. The flags word less its mark is compared with each
-- kind as a whole: its magic bit and the count of its meta words are still in it.
unfoldable pub bad_slots : Objects → Obj → ℕ
unfolding flags_word bad_slot
bad_slots s at =
    let f = bit_and (flags_word s at) (bit_not mark_bit) in
    let two = one_if (bad_slot s at 0) + one_if (bad_slot s at 1) in
    if f == flag_pair || f == flag_spair
    then two
    else if f == flag_envh
    then two + one_if (bad_slot s at 2)
    else 0

unfoldable pub check_loop : ℕ → Objects → Obj → ℕ → Option ℕ
unfolding bad_slots chain_next
check_loop zero s at bad = if is_nil at then some bad else none
check_loop (suc fuel) s at bad =
    let more = check_loop fuel s (chain_next s at) (bad + bad_slots s at) in
    if is_nil at then some bad else more

unfoldable pub heap_check : Host → Door → Obj → List Obj → M Obj
unfolding walks check_loop makes int ◌>>=◌
heap_check h d base vals = do
  bad ← walks (λ s. check_loop d.fuel s s.heap_chain 0)
  makes (λ s. int d.fuel s (pos bad))

abbrev pub binding_table : List PrimDef
binding_table = row (some "def") none 0 def ∷ row (some "set!") none 0 set_bang ∷ []

abbrev pub closure_table : List PrimDef
closure_table = row (some "fn") none 0 func ∷ row (some "op") none 0 operative_prim ∷ []

abbrev pub control_table : List PrimDef
control_table =
    row (some "%seq") none 0 seq
    ∷ row (some "error") none 0 error_prim
    ∷ row (some "guard") none 0 guard
    ∷ row (some "match") none 0 match_prim
    ∷ []

abbrev pub quote_table : List PrimDef
quote_table = row (some "lit") none 0 lit ∷ []

abbrev pub core_table : List PrimDef
core_table =
    row (some "eval") none 0 eval_in
    ∷ row (some "eval!") none 0 eval_here
    ∷ row (some "apply") none 0 apply_prim
    ∷ row (some "atomic") none 0 seq
    ∷ row (some "wrap") none 1 wrap_row
    ∷ row (some "unwrap") none 1 unwrap_row
    ∷ row (some "tail-eval") none 2 tail_eval
    ∷ row (some "%base") none 0 base_prim
    ∷ []

abbrev pub base_table : List PrimDef
base_table =
    row (some "make-base") (some ("base", "make")) 0 base_make
    ∷ row none (some ("base", "eval")) 2 base_eval
    ∷ row none (some ("base", "bind")) 3 base_bind
    ∷ []

abbrev pub callcc_table : List PrimDef
callcc_table =
    row (some "call/cc") (some ("ctrl", "call/cc")) 1 call_cc
    ∷ row (some "%cc-invoke") none 2 cc_invoke
    ∷ []

abbrev pub heap_table : List PrimDef
heap_table =
    row none (some ("heap", "count")) 0 (uniform_engine 0 heap_count_prim)
    ∷ row (some "heap-collect") (some ("heap", "collect")) 0 (uniform_engine 0 heap_collect)
    ∷ row none (some ("heap", "mark")) 0 (uniform_engine 0 heap_part)
    ∷ row none (some ("heap", "sweep")) 0 (uniform_engine 0 heap_part)
    ∷ row none (some ("heap", "pin!")) 1 (uniform_engine 1 heap_pin)
    ∷ row none (some ("heap", "check")) 0 (uniform_engine 0 heap_check)
    ∷ row none (some ("heap", "mark-hook!")) 1 (uniform_engine 1 (heap_list mark_hooks))
    ∷ row none (some ("heap", "free-hook!")) 1 (uniform_engine 1 (heap_list free_hooks))
    ∷ row none (some ("heap", "mark-root!")) 1 (uniform_engine 1 (heap_list mark_roots))
    ∷ row (some "alloc-limit!") (some ("alloc", "limit!")) 1 (uniform_engine 1 alloc_limit_prim)
    ∷ []

abbrev pub num_table : List PrimDef
num_table =
    row (some "+") (some ("int", "+")) 2 (tower2 (codes "+") wrapping_add)
    ∷ row (some "-") (some ("int", "-")) 2 subtract
    ∷ row (some "*") (some ("int", "*")) 2 (tower2 (codes "*") wrapping_mul)
    ∷ row (some "&") (some ("int", "&")) 2 (int2 (codes "&") int_and)
    ∷ row (some "|") (some ("int", "|")) 2 (int2 (codes "|") int_or)
    ∷ row (some "^") (some ("int", "^")) 2 (int2 (codes "^") int_xor)
    ∷ row (some "<<") (some ("int", "<<")) 2 (int2 (codes "<<") shl)
    ∷ row (some ">>") (some ("int", ">>")) 2 (int2 (codes ">>") shr)
    ∷ row (some "~") (some ("int", "~")) 1 (int1 (codes "~") int_not)
    ∷ row (some "<") (some ("int", "<")) 2 (tower_pred (codes "<") ltb_ℤ)
    ∷ row (some "=") (some ("int", "=")) 2 (tower_pred (codes "=") beq_ℤ)
    ∷ row (some "/") (some ("int", "/")) 2 (tower2 (codes "/") div)
    ∷ row (some "%") (some ("int", "%")) 2 (tower2 (codes "%") rem)
    ∷ row (some "char->integer") (some ("char", "->int")) 1
        (uniform_value 1 (λ fuel s vals. char_to_int fuel s (arg vals 0)))
    ∷ row (some "integer->char") (some ("int", "->char")) 1
        (uniform_value 1 (λ fuel s vals. int_to_char fuel s (arg vals 0)))
    ∷ []

-- `make-type`, which installs handlers by name, is not among them.
abbrev pub obj_rows : List PrimDef
obj_rows =
    row (some "eq?") (some ("obj", "eq?")) 2
      (uniform_value 2 (λ fuel s vals. some (eq_prim s (arg vals 0) (arg vals 1), s)))
    ∷ row (some "same?") (some ("obj", "same?")) 2
        (uniform_value 2 (λ fuel s vals. some (same_prim s (arg vals 0) (arg vals 1), s)))
    ∷ row (some "first") none 1
        (uniform_value 1 (λ fuel s vals. some (first_prim s (arg vals 0), s)))
    ∷ row (some "rest") none 1 (uniform_value 1 (λ fuel s vals. some (rest_prim s (arg vals 0), s)))
    ∷ row (some "pair") none 2
        (uniform_value 2 (λ fuel s vals. pair_prim fuel s (arg vals 0) (arg vals 1)))
    ∷ row (some "type-of") (some ("type", "of")) 1 (uniform_engine 1 type_of_prim)
    ∷ row (some "type?") (some ("type", "?")) 2 (uniform_value 2 type_is)
    ∷ row (some "make-instance") (some ("type", "make-instance")) 2 (uniform_engine 2 make_instance)
    ∷ row none (some ("obj", "make")) 2 (uniform_engine 2 obj_make)
    ∷ row none (some ("obj", "make-callable")) 1
        (uniform_value 1 (λ fuel s vals. make_callable fuel s (arg vals 0)))
    ∷ []

abbrev pub str_table : List PrimDef
str_table =
    row none (some ("str", "make")) 1
      (uniform_value 1 (λ fuel s vals. str_make_prim fuel s (arg vals 0)))
    ∷ row (some "str-byte-len") (some ("str", "byte-len")) 1
        (uniform_value 1 (λ fuel s vals. str_byte_len fuel s (arg vals 0)))
    ∷ row (some "str-byte-ref") (some ("str", "byte-ref")) 2
        (uniform_value 2 (λ fuel s vals. str_byte_ref fuel s (arg vals 0) (arg vals 1)))
    ∷ row (some "str-byte-sub") (some ("str", "byte-sub")) 3 (
        uniform_value 3 (λ fuel s vals. str_byte_sub fuel s (arg vals 0) (arg vals 1) (arg vals 2)))
    ∷ row (some "str-append") (some ("str", "append")) 2
        (uniform_value 2 (λ fuel s vals. str_append fuel s (arg vals 0) (arg vals 1)))
    ∷ row none (some ("str", "->sym")) 1
        (uniform_engine 1 (λ h d base vals. makes (λ s. str_to_sym h.lossy d.fuel s (arg vals 0))))
    ∷ row (some "symbol->str") (some ("sym", "->str")) 1
        (uniform_engine 1 (λ h d base vals. makes (λ s. sym_to_str h.lossy d.fuel s (arg vals 0))))
    ∷ row (some "bytes->str") (some ("bytes", "->str")) 1
        (uniform_value 1 (λ fuel s vals. bytes_to_str fuel s (arg vals 0)))
    ∷ []

abbrev pub iter_table : List PrimDef
iter_table =
    row none (some ("iter", "make")) 2
      (uniform_value 2 (λ fuel s vals. iter_make fuel s (arg vals 0) (arg vals 1)))
    ∷ row none (some ("iter", "next")) 1 (uniform_engine 1 iter_next)
    ∷ row none (some ("iter", "empty?")) 1 (uniform_engine 1 iter_empty)
    ∷ row none (some ("iter", "step")) 1 (uniform_engine 1 iter_step_prim)
    ∷ []

abbrev pub eval_handler_table : List PrimDef
eval_handler_table =
    row (some "%sym-eval") none 0 sym_eval ∷ row (some "%list-eval") none 0 list_eval ∷ []

abbrev pub call_entries : List PrimDef
call_entries =
    row (some "%procedure-entry") none 0 procedure_entry
    ∷ row (some "%operative-entry") none 0 operative_entry
    ∷ row (some "%wrap-entry") none 0 wrap_entry
    ∷ row (some "%cont-entry") none 0 cont_entry
    ∷ row (some "%callable-call") none 0 callable_call
    ∷ row (some "%list-call") none 0 list_call
    ∷ []

-- The instructions that are modelled, in the order of their tables.
abbrev pub instructions : List PrimDef
instructions =
    binding_table
    ++ (closure_table
        ++ (control_table
            ++ (quote_table
                ++ (core_table
                    ++ (base_table
                        ++ (callcc_table
                            ++ (heap_table
                                ++ (num_table
                                    ++ (obj_rows
                                        ++ (str_table
                                            ++ (iter_table
                                                ++ (eval_handler_table ++ call_entries))))))))))))
