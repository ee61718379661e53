-- ===== src/Instructions/Counts.antt =====
-- src/prims/heap.rs, src/prims/obj.rs, src/prims/core.rs and src/objects.rs: the count of the
-- objects on the heap, the lists of a base that the collector reads, and the accesses without
-- checks. The walk of the chain is on fuel, and `none` means that it ran out or that the arena is
-- exhausted.
use x_engine_rust.Prelude.{
  ℕ, zero, suc, ◌+◌, ◌≤◌, ◌≡◌, refl, sym, ap, ◌∙◌, ◌≢◌, Option, none, some, List, [], ◌∷◌, ◌++◌,
  arith, if◌then◌else◌, ◌>>=◌, ==_iff, ne→==_false, length,
}
use x_engine_rust.Prelude.Int.{pos}
use x_engine_rust.Obj.{Obj, Word, is_nil}
use x_engine_rust.Heap.{words_len}
use x_engine_rust.Objects.{Objects, set_data, chain_next, first, rest}
use x_engine_rust.Symbols.{Symbols, all}
use x_engine_rust.Value.{wrapper_inner}
use x_engine_rust.Value.Make.{int, wrapper}
use x_engine_rust.Base.Build.{slot_push}
use x_engine_rust.Collect.Chain.{Chain}

unfoldable pub count_loop : ℕ → Objects → Obj → Option ℕ
unfolding chain_next
count_loop zero s at = if is_nil at then some 0 else none
count_loop (suc fuel) s at =
    let more = count_loop fuel s (chain_next s at) in
    if is_nil at then some 0 else more >>= (λ n. some (n + 1))

unfoldable pub heap_count : ℕ → Objects → Option (Obj × Objects)
unfolding count_loop int
heap_count fuel s = do n ← count_loop fuel s s.heap_chain; int fuel s (pos n)

abbrev pub mark_hooks : ℕ
mark_hooks = 8

abbrev pub free_hooks : ℕ
free_hooks = 9

abbrev pub mark_roots : ℕ
mark_roots = 10

-- An object on a list of the base, which is also the answer.
unfoldable pub heap_mark_hook : ℕ → Objects → Obj → Obj → Option (Obj × Objects)
unfolding slot_push
heap_mark_hook fuel s base o = do (c, s1) ← slot_push fuel s base mark_hooks o; some (o, s1)

unfoldable pub heap_free_hook : ℕ → Objects → Obj → Obj → Option (Obj × Objects)
unfolding slot_push
heap_free_hook fuel s base o = do (c, s1) ← slot_push fuel s base free_hooks o; some (o, s1)

unfoldable pub heap_mark_root : ℕ → Objects → Obj → Obj → Option (Obj × Objects)
unfolding slot_push
heap_mark_root fuel s base o = do (c, s1) ← slot_push fuel s base mark_roots o; some (o, s1)

unfoldable pub first_prim : Objects → Obj → Obj
unfolding first
first_prim s o = first s o

unfoldable pub rest_prim : Objects → Obj → Obj
unfolding rest
rest_prim s o = rest s o

unfoldable pub wrap_prim : ℕ → Objects → Obj → Option (Obj × Objects)
unfolding wrapper
wrap_prim fuel s o = wrapper fuel s o

unfoldable pub unwrap_prim : Objects → Obj → Obj
unfolding wrapper_inner
unwrap_prim s o = wrapper_inner s o

unfoldable pub set_live_line : Objects → Word → Objects
unfolding first set_data
set_live_line s line =
    let c = first s s.line_node in
    if is_nil s.line_node then s else if is_nil c then s else set_data s c 0 line

unfoldable pub interned : Objects → List Obj
unfolding all
interned s = all s.symbols ++ all s.shared_symbols

abbrev pub heap_words : Objects → ℕ
heap_words s = words_len s.heap

abbrev pub alloc_count : Objects → ℕ
alloc_count s = s.heap.allocations

abbrev pub swap_symbols : Objects → Symbols → Symbols × Objects
swap_symbols s table = (s.symbols, record s { symbols = table })

-- On a chain of objects that links to nil, with fuel for each of them, the walk of the heap returns
-- and answers how many they are.
pub count_loop-length :
    (xs : List Obj) (fuel : ℕ) (s : Objects) (at : Obj)
    → Chain s at xs
    → length xs ≤ fuel
    → count_loop fuel s at ≡ some (length xs)
count_loop-length [] fuel s at e enough = count_end fuel
  where
    count_end : (fuel : ℕ) → count_loop fuel s at ≡ some 0
    count_end zero = unfold count_loop in rw e refl
    count_end (suc fuel) = unfold count_loop in rw ((==_iff at 0).1 e) refl
count_loop-length (o ∷ xs) zero s at c enough = absurd (omega arith)
count_loop-length (o ∷ xs) (suc fuel) s at (e, place, apart, c) enough =
    let ih = count_loop-length xs fuel s (chain_next s o) c (omega arith) in
    count_form ∙ rw (ne→==_false at 0 not_end, same, ih) (ap some (omega arith))
  where
    not_end : at ≢ 0
    not_end z = place.ne_nil (sym e ∙ z)

    same : chain_next s at ≡ chain_next s o
    same = ap (chain_next s) e

    count_form : count_loop (suc fuel) s at ≡ (
        if is_nil at then some 0 else count_loop fuel s (chain_next s at) >>= (λ n. some (n + 1)))
    count_form = unfold count_loop in refl
