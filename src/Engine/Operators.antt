-- ===== src/Engine/Operators.antt =====
-- src/eval.rs and src/prim.rs: the dispatch of an operator on the types of its operands, and the
-- rows of the operators, which the macros of the source make from a leaf on words.
use x_engine_rust.Prelude.{
  Bool, ◌&&◌, ◌||◌, Option, none, some, List, [], ◌∷◌, ◌++◌, ◌==◌, if◌then◌else◌, get_or,
}
use x_engine_rust.Prelude.Int.{ℤ}
use x_engine_rust.Obj.{Obj, nil, is_nil}
use x_engine_rust.Objects.{Objects}
use x_engine_rust.Objects.Kinds.{codes}
use x_engine_rust.Symbols.{same_name}
use x_engine_rust.Value.{as_int, truth}
use x_engine_rust.Value.Text.{bytes_of}
use x_engine_rust.Value.Make.{sym, int}
use x_engine_rust.Typed.{ops, type_handler, handle_of_type}
use x_engine_rust.Typed.Builtin.{obj_type}
use x_engine_rust.Num.{wrapping_neg, wrapping_sub}
use x_engine_rust.Engine.{
  Text, Cond, engine_msg, M, pure, raise, reads, walks, makes, ◌>>=◌, on_option, Host, Door, PrimFn,
}
use x_engine_rust.Engine.Apply.{
  ops_lookup, declares_from, root_env, call_with_values, eargs_for, eargs,
}

-- `<op>: operand is nil`.
unfoldable pub nil_operand : Text → Cond
nil_operand name = engine_msg (name ++ codes ": operand is nil")

abbrev no_cvt_relation : Text → Text
no_cvt_relation name =
    codes "no declared promotion; declare the cvt relation for '" ++ name ++ codes "'"

module _ (h : Host) (d : Door) where
  unfoldable pub op_call : Obj → Obj → Obj → M (Option Obj)
  unfolding root_env call_with_values ◌>>=◌
  op_call handler a b = do
    env ← root_env
    v ← call_with_values d handler (a ∷ b ∷ []) env
    pure (some v)

  -- No conversion is declared: unrelated values are not equal, and the rest is an error.
  unfoldable pub op_refuse : Text → Obj → M (Option Obj)
  unfolding reads walks same_name bytes_of ◌>>=◌
  op_refuse op name_b = if same_name op (codes "=") then reads (λ s. some s.false_obj) else (do
    name ← walks (λ s. bytes_of s name_b)
    raise (engine_msg (no_cvt_relation (h.lossy name))))

  -- Both types have a handler: the one that declares a conversion from the other has it, and with
  -- no such declaration the operator is refused.
  unfoldable pub op_arbitrate : Text → Obj → Obj → Obj → Obj → Obj → Obj → M (Option Obj)
  unfolding reads walks handle_of_type declares_from op_call op_refuse ◌>>=◌
  op_arbitrate op a b ta tb handler other = do
    name_b ← reads (λ s. handle_of_type s tb)
    name_a ← reads (λ s. handle_of_type s ta)
    forth ← walks (λ s. declares_from d.fuel s ta name_b)
    if forth then op_call handler a b else (do
      back ← walks (λ s. declares_from d.fuel s tb name_a)
      if back then op_call other a b else op_refuse op name_b)

  unfoldable pub op_choose : Text → Obj → Obj → Obj → Obj → Option Obj → Option Obj → M (Option Obj)
  unfolding op_call op_arbitrate
  op_choose op a b ta tb none none = pure none
  op_choose op a b ta tb (some handler) none = op_call handler a b
  op_choose op a b ta tb none (some other) = op_call other a b
  op_choose op a b ta tb (some handler) (some other) =
      if ta == tb then op_call handler a b else op_arbitrate op a b ta tb handler other

  -- The ops alist of a type.
  abbrev ops_of : Objects → Obj → Obj
  ops_of s ty = if is_nil ty then nil else type_handler s ty ops

  unfoldable pub op_try : Text → Obj → Obj → M (Option Obj)
  unfolding makes obj_type reads type_handler sym walks ops_lookup op_choose ◌>>=◌
  op_try op a b = do
    ta ← makes (λ s. obj_type d.fuel s a)
    tb ← makes (λ s. obj_type d.fuel s b)
    ops_a ← reads (λ s. ops_of s ta)
    ops_b ← reads (λ s. ops_of s tb)
    if is_nil ops_a && is_nil ops_b then pure none else (do
      name ← makes (λ s. sym d.fuel s op)
      ha ← walks (λ s. ops_lookup d.fuel s ops_a name)
      hb ← walks (λ s. ops_lookup d.fuel s ops_b name)
      op_choose op a b ta tb ha hb)

  unfoldable pub boxed : (ℤ → ℤ → ℤ) → Obj → Obj → M Obj
  unfolding makes int as_int
  boxed f x y = makes (λ s. int d.fuel s (f (as_int s x) (as_int s y)))

  -- The operation on words, which a nil operand refuses.
  unfoldable pub raw2 : Text → (ℤ → ℤ → ℤ) → Obj → Obj → M Obj
  unfolding nil_operand boxed
  raw2 name f x y = if is_nil x || is_nil y then raise (nil_operand name) else boxed f x y

-- `uniform_tower2!`.
unfoldable pub tower2 : Text → (ℤ → ℤ → ℤ) → PrimFn
unfolding eargs_for op_try on_option raw2 ◌>>=◌
tower2 name f h d callee args env = do
  vals ← eargs_for d callee args env 2
  let x = get_or vals 0 nil
  let y = get_or vals 1 nil
  v ← op_try h d name x y
  on_option v (raw2 h d name f x y) (λ o. pure o)

-- `uniform_tower_pred!`.
unfoldable pub tower_pred : Text → (ℤ → ℤ → Bool) → PrimFn
unfolding eargs_for op_try on_option reads truth as_int ◌>>=◌
tower_pred name f h d callee args env = do
  vals ← eargs_for d callee args env 2
  let x = get_or vals 0 nil
  let y = get_or vals 1 nil
  v ← op_try h d name x y
  on_option v (reads (λ s. truth s (f (as_int s x) (as_int s y)))) (λ o. pure o)

-- `uniform_int2!`.
unfoldable pub int2 : Text → (ℤ → ℤ → ℤ) → PrimFn
unfolding eargs_for raw2 ◌>>=◌
int2 name f h d callee args env = do
  vals ← eargs_for d callee args env 2
  raw2 h d name f (get_or vals 0 nil) (get_or vals 1 nil)

-- `uniform_int1!`.
unfoldable pub int1 : Text → (ℤ → ℤ) → PrimFn
unfolding eargs_for nil_operand makes int as_int ◌>>=◌
int1 name f h d callee args env = do
  vals ← eargs_for d callee args env 1
  let x = get_or vals 0 nil
  if is_nil x then raise (nil_operand name) else makes (λ s. int d.fuel s (f (as_int s x)))

-- One operand is negated, and of more the second is subtracted from the first.
unfoldable pub subtract_vals : Host → Door → List Obj → M Obj
unfolding raise nil_operand makes int as_int wrapping_neg op_try on_option raw2 ◌>>=◌
subtract_vals h d [] = raise (nil_operand (codes "-"))
subtract_vals h d (x ∷ []) =
    if is_nil x
    then raise (nil_operand (codes "-"))
    else makes (λ s. int d.fuel s (wrapping_neg (as_int s x)))
subtract_vals h d (x ∷ y ∷ more) = do
  v ← op_try h d (codes "-") x y
  on_option v (raw2 h d (codes "-") wrapping_sub x y) (λ o. pure o)

-- The row of `-`, which has at least one operand.
unfoldable pub subtract : PrimFn
unfolding eargs subtract_vals ◌>>=◌
subtract h d callee args env = do vals ← eargs d args env 1; subtract_vals h d vals
