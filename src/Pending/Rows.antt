-- ===== src/Pending/Rows.antt =====
-- src/eval.rs: what is parked, hidden or pushed comes back as it was.
use x_engine_rust.Prelude.{
  ℕ, ◌+◌, ◌≤◌, ◌<◌, ◌≡◌, refl, sym, ap, ◌∙◌, ◌≢◌, ◌⊎◌, inl, inr, false, none, some, arith,
  if◌then◌else◌, ◌>>=◌, ne→==_false, get_or,
}
use x_engine_rust.Obj.{Obj, EnvId, IsWord, nil, is_nil, word_index}
use x_engine_rust.Heap.{words_len, note_allocation}
use x_engine_rust.Heap.Words.{IsValid, words_len-set_word}
use x_engine_rust.Objects.{
  Objects, slot, data_word, set_data, first, rest, meta_extra, count_alloc, meta_len,
}
use x_engine_rust.Objects.Header.{IsPlace, IsPlace_grow, data_word-set_data, data_word-at_index}
use x_engine_rust.Objects.FreeList.{IsReady}
use x_engine_rust.Objects.Spared.{IsSpared, spared_apart}
use x_engine_rust.Value.{spair}
use x_engine_rust.Value.Pairs.{spair_outcome, set-IsValid, set_kept}
use x_engine_rust.Pending.{
  row_push, row_pop, save_push, save_pop, park_tail, tail_take, nothing_pending, state_node,
  sn_save, sn_tco_expr, sn_tco_env,
}

set_data-words_len :
    (s : Objects) (o : Obj) (i v : ℕ) → words_len (set_data s o i v).heap ≡ words_len s.heap
unfolding set_data
set_data-words_len s o i v = words_len-set_word s.heap (slot o i) v

-- A write into one object leaves the data words of another as they were.
data_word-set_data_other :
    (s : Objects)
    → IsValid s.heap
    → {o p : Obj} {n : ℕ} → IsPlace s.heap o n
    → IsPlace s.heap p 2
    → (i v : ℕ) → i < n
    → IsWord v
    → (word_index o + (meta_len + n) ≤ word_index p)
      ⊎ (word_index p + (meta_len + 2) ≤ word_index o)
    → (k : ℕ) → k < 2
    → data_word (set_data s o i v) p k ≡ data_word s p k
data_word-set_data_other s ok {o} {p} {n} po pp i v small w apart k two =
    data_word-at_index (set_data s o i v) (set-IsValid s ok po i v small w)
      (IsPlace_grow pp (omega (arith, set_data-words_len s o i v))) k two
    ∙ set_kept s ok po i v small w (word_index p + (meta_len + k))
        (λ e. elim apart [ inl x ↦ omega arith | inr x ↦ omega arith ])
    ∙ sym (data_word-at_index s ok pp k two)

first-set_data_other :
    (s : Objects)
    → IsValid s.heap
    → {o p : Obj} → IsPlace s.heap o 2
    → IsPlace s.heap p 2
    → (v : ℕ) → IsWord v
    → (word_index o + (meta_len + 2) ≤ word_index p)
      ⊎ (word_index p + (meta_len + 2) ≤ word_index o)
    → first (set_data s o 0 v) p ≡ first s p
unfolding first
first-set_data_other s ok po pp v w apart =
    data_word-set_data_other s ok po pp 0 v (omega arith) w apart 0 (omega arith)

first-set_data :
    (s : Objects)
    → IsValid s.heap
    → {o : Obj} → IsPlace s.heap o 2
    → (v : ℕ) → IsWord v
    → first (set_data s o 0 v) o ≡ v
unfolding first
first-set_data s ok {o} p v w = data_word-set_data s ok p 0 0 v w (omega arith) (omega arith) ∙ refl

-- Both rows written.
abbrev both : Objects → Obj → Obj → Obj → Obj → Objects
both s a b v w = set_data (set_data s a 0 v) b 0 w

record Both (s : Objects) (a b v w : Obj) : Type 0 where
  valid : IsValid (both s a b v w).heap
  place_a : IsPlace (both s a b v w).heap a 2
  place_b : IsPlace (both s a b v w).heap b 2
  first_a : first (both s a b v w) a ≡ v
  first_b : first (both s a b v w) b ≡ w

Both-written :
    (s : Objects)
    → IsValid s.heap
    → {a b : Obj} → IsPlace s.heap a 2
    → IsPlace s.heap b 2
    → (word_index a + (meta_len + 2) ≤ word_index b)
      ⊎ (word_index b + (meta_len + 2) ≤ word_index a)
    → (v w : ℕ) → IsWord v
    → IsWord w
    → Both s a b v w
Both-written s ok {a} {b} pa pb apart v w wv ww =
    let s1 = set_data s a 0 v in
    let ok1 = set-IsValid s ok pa 0 v (omega arith) wv in
    let l1 = set_data-words_len s a 0 v in
    let pa1 = IsPlace_grow {h = s.heap} {g = s1.heap} pa (omega arith) in
    let pb1 = IsPlace_grow {h = s.heap} {g = s1.heap} pb (omega arith) in
    let l2 = set_data-words_len s1 b 0 w in
    record {
      valid = set-IsValid s1 ok1 pb1 0 w (omega arith) ww;
      place_a = IsPlace_grow pa1 (omega arith);
      place_b = IsPlace_grow pb1 (omega arith);
      first_a =
          first-set_data_other s1 ok1 pb1 pa1 w ww (elim apart [ inl x ↦ inr x | inr x ↦ inl x ])
          ∙ first-set_data s ok pa v wv;
      first_b = first-set_data s1 ok1 pb1 w ww;
    }

both_node : (s : Objects) (a b v w : Obj) (i : ℕ) → state_node (both s a b v w) i ≡ state_node s i
unfolding set_data
both_node s a b v w i = refl

park_tail_form :
    (s : Objects) (form env : Obj)
    → park_tail s form env ≡ both s (state_node s sn_tco_expr) (state_node s sn_tco_env) form env
unfolding park_tail
park_tail_form s form env = refl

tail_take_form :
    (s : Objects)
    → tail_take s ≡ (
        if is_nil (first s (state_node s sn_tco_expr)) then (none, s) else (
          some (first s (state_node s sn_tco_expr), first s (state_node s sn_tco_env)),
          both s (state_node s sn_tco_expr) (state_node s sn_tco_env) nil nil,
        ))
unfolding tail_take
tail_take_form s = refl

-- In a valid arena, on two rows whose nodes share no word, a form that is not nil and the
-- environment parked with it are what `tail_take` answers, and it clears the rows, so that a second
-- `tail_take` answers that nothing is parked.
pub tail_take-park_tail :
    (s : Objects) (form env : Obj)
    → IsValid s.heap
    → IsPlace s.heap (state_node s sn_tco_expr) 2
    → IsPlace s.heap (state_node s sn_tco_env) 2
    → (word_index (state_node s sn_tco_expr) + (meta_len + 2)
        ≤ word_index (state_node s sn_tco_env))
      ⊎ (word_index (state_node s sn_tco_env) + (meta_len + 2)
          ≤ word_index (state_node s sn_tco_expr))
    → IsWord form
    → IsWord env
    → form ≢ nil
    → (t : Objects) × (tail_take (park_tail s form env) ≡ (some (form, env), t))
      × (tail_take t ≡ (none, t))
tail_take-park_tail s form env ok pa pb apart wf we ne =
    let a = state_node s sn_tco_expr in
    let b = state_node s sn_tco_env in
    let parked = Both-written s ok pa pb apart form env wf we in
    let t1 = both s a b form env in
    let cleared =
      Both-written t1 parked.valid parked.place_a parked.place_b apart nil nil (omega arith)
        (omega arith) in
    let full : is_nil (first t1 a) ≡ false = ap is_nil parked.first_a ∙ ne→==_false form 0 ne in
    (
      both t1 a b nil nil,
      ap tail_take (park_tail_form s form env)
          ∙ tail_take_form t1
          ∙ rw
              (
                both_node s a b form env sn_tco_expr,
                both_node s a b form env sn_tco_env,
                full,
                parked.first_a,
                parked.first_b,
              )
              refl,
      tail_take_form (both t1 a b nil nil)
          ∙ rw
              (
                both_node t1 a b nil nil sn_tco_expr,
                both_node s a b form env sn_tco_expr,
                cleared.first_a,
              )
              refl,
    )

row_push_form :
    (s : Objects) (i env : ℕ)
    → row_push s i env ≡ (
        spair s env (first s (state_node s i))
        >>= (λ (r : Obj × Objects). some (set_data r.1 (state_node s i) 0 r.0)))
unfolding row_push
row_push_form s i env = refl

row_pop_form :
    (t : Objects) (i node : ℕ)
    → state_node t i ≡ node
    → row_pop t i ≡ set_data t node 0 (rest t (first t node))
row_pop_form t i node e = unfold row_pop in rw e refl

-- On a ready state whose row `i` has a node that no object on the free list overlaps, with room for
-- a cell: a push succeeds and puts the environment on top of the row, and the pop after it leaves
-- the row as it was.
row_pop-row_push :
    (s : Objects) (i env : ℕ)
    → IsReady s
    → IsWord s.spair_marker
    → IsWord env
    → IsSpared s (state_node s i) 2
    → words_len s.heap + (meta_extra s + (meta_len + 2)) ≤ s.heap.capacity
    → (t : Objects) × (row_push s i env ≡ some t)
      × (state_node t i ≡ state_node s i)
      × (is_nil (first t (state_node s i)) ≡ false)
      × (first t (first t (state_node s i)) ≡ env)
      × (first (row_pop t i) (state_node s i) ≡ first s (state_node s i))
row_pop-row_push s i env r wm we sp room =
    let node = state_node s i in
    let old = first s node in
    let wold : IsWord old = first_IsWord in
    let (o, u, q, valid, place, chain, one, two, k, l, kept, from, nodes, longer) =
      spair_outcome s env old r wm we wold room in
    let apart =
      flip o node (spared_apart (count_alloc s) node o 2 2 spared_counted (omega arith) from) in
    let pn = IsPlace_grow {h = s.heap} {g = u.heap} sp.place longer in
    let wo : IsWord o = omega (arith, place.inside, valid.within, valid.small) in
    let t = set_data u node 0 o in
    let ok' = set-IsValid u valid pn 0 o (omega arith) wo in
    let grown = set_data-words_len u node 0 o in
    let pn' = IsPlace_grow {h = u.heap} {g = t.heap} pn (omega arith) in
    let top : first t node ≡ o = first-set_data u valid pn o wo in
    let below : rest t o ≡ old =
      unfold rest in
      (data_word-set_data_other u valid pn place 0 o (omega arith) wo apart 1 (omega arith))
      ∙ two in
    let same_node : state_node t i ≡ node = unfold set_data in ap (λ l. get_or l i nil) nodes in
    (
      t,
      row_push_form s i env ∙ rw q refl,
      same_node,
      ap is_nil top ∙ ne→==_false o 0 place.ne_nil,
      ap (first t) top ∙ first-set_data_other u valid pn place o wo apart ∙ one,
      ap (λ (v : Objects). first v node) (row_pop_form t i node same_node)
          ∙ ap (λ c. first (set_data t node 0 (rest t c)) node) top
          ∙ ap (λ c. first (set_data t node 0 c) node) below
          ∙ first-set_data t ok' pn' old wold,
    )
  where
    first_IsWord : IsWord (first s (state_node s i))
    first_IsWord =
        unfold first in
        rw (data_word-at_index s r.valid sp.place 0 (omega arith)) (r.valid.bounded _)

    spared_counted : IsSpared (count_alloc s) (state_node s i) 2
    spared_counted =
        unfold count_alloc note_allocation in
        record { place = IsPlace_grow sp.place (omega arith); free = sp.free }

    flip :
        (o p : Obj)
        → (word_index o + (meta_len + 2) ≤ word_index p)
          ⊎ (word_index p + (meta_len + 2) ≤ word_index o)
        → (word_index p + (meta_len + 2) ≤ word_index o)
          ⊎ (word_index o + (meta_len + 2) ≤ word_index p)
    flip o p (inl x) = inr x
    flip o p (inr x) = inl x

row_pop_node : (t : Objects) (i : ℕ) → state_node (row_pop t i) i ≡ state_node t i
unfolding row_pop
row_pop_node t i = refl

-- On a ready state whose save row has a node that no object on the free list overlaps, with room
-- for a cell: a save succeeds, the environment saved is on top of the row, so that something is
-- pending, and the pop after it leaves the row as it was.
pub save_pop-save_push :
    (s : Objects) (env : EnvId)
    → IsReady s
    → IsWord s.spair_marker
    → IsWord env
    → IsSpared s (state_node s sn_save) 2
    → words_len s.heap + (meta_extra s + (meta_len + 2)) ≤ s.heap.capacity
    → (t : Objects) × (save_push s env ≡ some t)
      × (nothing_pending t ≡ false)
      × (first t (first t (state_node s sn_save)) ≡ env)
      × (nothing_pending (save_pop t) ≡ nothing_pending s)
      × (first (save_pop t) (state_node s sn_save) ≡ first s (state_node s sn_save))
save_pop-save_push s env r wm we sp room =
    let (t, q, node, pending, top, below) = row_pop-row_push s sn_save env r wm we sp room in
    (
      t,
      unfold save_push in q,
      unfold nothing_pending in rw node pending,
      top,
      unfold nothing_pending save_pop in
          ap is_nil (ap (first (row_pop t sn_save)) (row_pop_node t sn_save ∙ node) ∙ below),
      unfold save_pop in below,
    )
