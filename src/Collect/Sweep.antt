-- ===== src/Collect/Sweep.antt =====
-- src/collect.rs: `sweep` over a chain of objects whose headers are apart.
use x_engine_rust.Prelude.{
  ℕ, zero, suc, ◌+◌, ◌-◌, ◌%◌, ◌^◌, ◌≤◌, ◌<◌, ◌≡◌, refl, ap, ◌∙◌, ◌≢◌, ◌⊎◌, inl, inr, Bool, false,
  some, List, [], ◌∷◌, arith, if◌then◌else◌, ==_iff, ne→==_false, Bool-cases, length,
}
use x_engine_rust.Obj.{Obj, IsWord, nil, word_index}
use x_engine_rust.Heap.{words_len}
use x_engine_rust.Heap.Words.{IsValid}
use x_engine_rust.Objects.{Objects, flags_word, chain_next, meta_len}
use x_engine_rust.Objects.Header.{at_index}
use x_engine_rust.Objects.FreeList.{All}
use x_engine_rust.Collect.{is_marked, sweep_key, sweep_loop, sweep}
use x_engine_rust.Collect.Chain.{Chain}
use x_engine_rust.Collect.Round.{swept_flags, round, sweep_round}
use x_engine_rust.Collect.Rounds.{
  kept_onto, dead, released, Swept, Ahead, Chain-IsWord, Ahead-Round, Swept-Round,
}
use x_engine_rust.Objects.FreeList.{All-map}

loop_step :
    (fuel : ℕ) (s : Objects) (at kept freed : ℕ)
    → at ≢ nil
    → sweep_loop (suc fuel) s at kept freed
      ≡ sweep_loop fuel
          (round s at kept (is_marked s at))
          (chain_next s at)
          (if is_marked s at then at else kept)
          (if is_marked s at then freed else freed + 1)
loop_step fuel s at kept freed ne = unfold sweep_loop in rw (ne→==_false at 0 ne)

loop_end :
    (fuel : ℕ) (s : Objects) (at kept freed : ℕ)
    → at ≡ nil
    → sweep_loop fuel s at kept freed ≡ some (s, kept, freed)
unfolding sweep_loop
loop_end zero s at kept freed e = rw e
loop_end (suc fuel) s at kept freed e = rw ((==_iff at 0).1 e)

-- Fuel for the objects of the chain is enough for the loop.
sweep_loop-Swept :
    (xs ys : List Obj) (fuel : ℕ) (s : Objects) (m : Obj → Bool) (key : Obj → ℕ) (at kept freed : ℕ)
    → Ahead s m key xs ys at kept
    → length xs ≤ fuel
    → (t : Objects) × (kept' : Obj) × (freed' : ℕ) × (sweep_loop fuel s at kept freed
        ≡ some (t, kept', freed'))
      × Swept s m key xs ys freed t kept' freed'
sweep_loop-Swept [] ys fuel s m key at kept freed a enough = (
  s,
  kept,
  freed,
  loop_end fuel s at kept freed a.chain,
  record {
    valid = a.valid;
    size = refl;
    chain = a.done;
    count = omega arith;
    flagged = tt;
    unmoved = λ i out. refl;
    free = refl;
    others = refl;
  },
)
sweep_loop-Swept (o ∷ xs) ys zero s m key at kept freed a enough = absurd (omega arith)
sweep_loop-Swept (o ∷ xs) ys (suc fuel) s m key at kept freed a enough =
    let r =
      sweep_round s a.valid m key a.chain.1 a.reads.0 kept (Chain-IsWord s a.valid kept ys a.done)
        a.clean in
    let (t, kept', freed', e, w) =
      sweep_loop-Swept xs (if m o then o ∷ ys else ys) fuel (round s o kept (m o)) m key
        (chain_next s o) (if m o then o else kept) (if m o then freed else freed + 1)
        (Ahead-Round s m key o xs ys at kept (round s o kept (m o)) a r) (omega arith) in
    (
      t,
      kept',
      freed',
      ap (λ z. sweep_loop (suc fuel) s z kept freed) a.chain.0
          ∙ loop_step fuel s o kept freed a.chain.1.ne_nil
          ∙ rw a.reads.0.0 e,
      Swept-Round s m key o xs ys at kept (round s o kept (m o)) a r w,
    )

All-any : {P : Obj → Type 0} → ((o : Obj) → P o) → (xs : List Obj) → All P xs
All-any f [] = tt
All-any f (x ∷ xs) = (f x, All-any f xs)

dead_at_most : (m : Obj → Bool) (xs : List Obj) → dead m xs ≤ length xs
dead_at_most m [] = omega arith
dead_at_most m (o ∷ xs) =
    let z = dead_at_most m xs in
    elim (Bool-cases (m o)) [ inl e ↦ rw e (omega arith) | inr e ↦ rw e (omega arith) ]

-- The fields that `sweep` sets when the loop is over.
unfoldable finish : Objects → Obj → ℕ → Objects
finish t kept freed = record t { heap_chain = kept; live = (t.live + 2 ^ 64 - freed) % 2 ^ 64 }

finish-chain_next :
    (t : Objects) (kept freed : ℕ) (o : Obj) → chain_next (finish t kept freed) o ≡ chain_next t o
unfolding chain_next finish
finish-chain_next t kept freed o = refl

finish-flags_word :
    (t : Objects) (kept freed : ℕ) (o : Obj) → flags_word (finish t kept freed) o ≡ flags_word t o
unfolding flags_word finish
finish-flags_word t kept freed o = refl

finish-Chain :
    (t : Objects) (kept freed : ℕ) (at : Obj) (xs : List Obj)
    → Chain t at xs
    → Chain (finish t kept freed) at xs
unfolding finish
finish-Chain t kept freed at [] c = c
finish-Chain t kept freed at (o ∷ xs) (e, p, a, c) = (
  e,
  p,
  a,
  rw (finish-chain_next t kept freed o) (finish-Chain t kept freed (chain_next t o) xs c),
)

-- `sweep` from a chain of objects whose headers lie in the arena and are apart, without poisoning,
-- with a live count that covers the chain and fuel for each of its objects: it returns, and the
-- count freed is that of the objects without a mark. The new chain is that of the marked objects,
-- in reverse order, their marks cleared; each other object is stamped freed and put on the free
-- list under its sizes; `live` falls by the count freed; no word outside the headers of the chain's
-- objects changes, and the arena stays valid and of the same length.
pub sweep-Swept :
    (xs : List Obj) (fuel : ℕ) (s : Objects)
    → IsValid s.heap
    → s.poison_freed ≡ false
    → Chain s s.heap_chain xs
    → length xs ≤ fuel
    → length xs ≤ s.live
    → IsWord s.live
    → (t : Objects) × (sweep fuel s ≡ some (t, dead (is_marked s) xs))
      × IsValid t.heap
      × (words_len t.heap ≡ words_len s.heap)
      × Chain t t.heap_chain (kept_onto (is_marked s) xs [])
      × (t.live ≡ s.live - dead (is_marked s) xs)
      × All (λ o. flags_word t o ≡ swept_flags (is_marked s) o (flags_word s o)) xs
      × (t.free ≡ released (is_marked s) (sweep_key s) xs s.free)
      × ((i : ℕ)
          → All (λ o. (i < word_index o) ⊎ (word_index o + meta_len ≤ i)) xs
          → at_index t.heap i ≡ at_index s.heap i)
unfolding sweep finish
sweep-Swept xs fuel s ok clean c enough held small =
    let (t, kept, freed, e, w) =
      sweep_loop-Swept xs [] fuel s (is_marked s) (sweep_key s) s.heap_chain nil 0
        (start xs ok clean c) enough in
    let few = dead_at_most (is_marked s) xs in
    let same : t.live ≡ s.live = ap (λ (u : Objects). u.live) w.others in
    (
      finish t kept freed,
      run fuel s t kept freed e
          ∙ ap (λ n. some (finish t kept freed, n))
              (let z : freed ≡ dead (is_marked s) xs = omega (arith, w.count) in z),
      w.valid,
      w.size,
      finish-Chain t kept freed kept (kept_onto (is_marked s) xs []) w.chain,
      (let z : (t.live + 2 ^ 64 - freed) % 2 ^ 64 ≡ s.live - dead (is_marked s) xs =
            omega (arith, w.count) in
          z),
      All-map xs (λ o f. finish-flags_word t kept freed o ∙ f) w.flagged,
      w.free,
      w.unmoved,
    )
  where
    start :
        (xs : List Obj)
        → IsValid s.heap
        → s.poison_freed ≡ false
        → Chain s s.heap_chain xs
        → Ahead s (is_marked s) (sweep_key s) xs [] s.heap_chain nil
    start xs ok clean c = record {
      valid = ok;
      clean = clean;
      chain = c;
      done = refl;
      apart = All-any (λ o. tt) xs;
      reads = All-any (λ o. (refl, refl)) xs;
    }

    run :
        (fuel : ℕ) (s t : Objects) (kept freed : ℕ)
        → sweep_loop fuel s s.heap_chain nil 0 ≡ some (t, kept, freed)
        → sweep fuel s ≡ some (finish t kept freed, freed)
    run fuel s t kept freed e = rw e refl
