-- ===== src/Tests/Engines.antt =====
-- An engine on a concrete store: forms whose types have instructions as eval handlers.
use x_engine_rust.Prelude.{◌+◌, ◌≡◌, refl, Option, none, some, List, [], ◌∷◌}
use x_engine_rust.Obj.{Obj, Word, nil}
use x_engine_rust.Objects.{Objects, flag_magic_bit}
use x_engine_rust.Objects.Kinds.{flag_pair, flag_prim}
use x_engine_rust.Engine.{Cond, raised, Engine, Result, ok, err, Host, Door}
use x_engine_rust.Engine.Run.{door, Round, again, round, replace_slots}
use x_engine_rust.Engine.Tables.{instructions}
use x_engine_rust.Engine.Boot.{bare_engine}
use x_engine_rust.Engine.Balance.{Same-refl}
use x_engine_rust.Engine.Balance.Loop.{LeavesStacks, Slotted}
use x_engine_rust.Engine.Balance.Closed.{Restored, pushed, eval-Restored}
use x_engine_rust.Engine.Balance.Tails.{replace_slots-round}
use x_engine_rust.Value.{list}
use x_engine_rust.Engine.Apply.{spine_end, seq_steps}
use x_engine_rust.Engine.Escape.{resume_body}
use x_engine_rust.Engine.Replay.{resume_body-seq_steps}
use x_engine_rust.Tests.{store}

-- Machine code that does nothing.
abbrev pub host : Host
host = record {
  call_ints = λ addr words e. some (0, e);
  lossy = λ text. text;
  arena = 4096;
  machine = [];
  release = [];
}

-- The nodes of the rows at 8, 56, 104 and 152; two plain pairs at 200 and 248; at 760 a list of
-- these two, whose type has `%seq` as its eval handler; and at 1144 a list of this list, whose type
-- has `error`.
abbrev form_words : List Word
form_words =
    0
    ∷ 0
    ∷ 0
    ∷ (flag_magic_bit + flag_pair)
    ∷ 2
    ∷ 0
    ∷ 0
    ∷ 8
    ∷ 0
    ∷ (flag_magic_bit + flag_pair)
    ∷ 2
    ∷ 0
    ∷ 0
    ∷ 56
    ∷ 0
    ∷ (flag_magic_bit + flag_pair)
    ∷ 2
    ∷ 0
    ∷ 0
    ∷ 104
    ∷ 0
    ∷ (flag_magic_bit + flag_pair)
    ∷ 2
    ∷ 0
    ∷ 0
    ∷ 152
    ∷ 0
    ∷ (flag_magic_bit + flag_pair)
    ∷ 2
    ∷ 0
    ∷ 0
    ∷ 200
    ∷ 0
    ∷ (flag_magic_bit + flag_pair)
    ∷ 2
    ∷ 0
    ∷ 0
    ∷ 248
    ∷ 0
    ∷ (flag_magic_bit + flag_prim)
    ∷ 1
    ∷ 4
    ∷ 296
    ∷ 0
    ∷ (flag_magic_bit + flag_prim)
    ∷ 1
    ∷ 5
    ∷ 336
    ∷ 0
    ∷ (flag_magic_bit + flag_pair)
    ∷ 2
    ∷ 296
    ∷ 0
    ∷ 376
    ∷ 0
    ∷ (flag_magic_bit + flag_pair)
    ∷ 2
    ∷ 376
    ∷ 0
    ∷ 424
    ∷ 0
    ∷ (flag_magic_bit + flag_pair)
    ∷ 2
    ∷ 0
    ∷ 424
    ∷ 472
    ∷ 0
    ∷ (flag_magic_bit + flag_pair)
    ∷ 2
    ∷ 472
    ∷ 0
    ∷ 520
    ∷ 0
    ∷ (flag_magic_bit + flag_pair)
    ∷ 2
    ∷ 0
    ∷ 520
    ∷ 568
    ∷ 0
    ∷ (flag_magic_bit + flag_pair)
    ∷ 2
    ∷ 0
    ∷ 568
    ∷ 616
    ∷ 0
    ∷ (flag_magic_bit + flag_pair)
    ∷ 2
    ∷ 0
    ∷ 616
    ∷ 664
    ∷ 0
    ∷ (flag_magic_bit + flag_pair)
    ∷ 2
    ∷ 248
    ∷ 0
    ∷ 712
    ∷ 664
    ∷ (flag_magic_bit + flag_pair)
    ∷ 2
    ∷ 200
    ∷ 712
    ∷ 760
    ∷ 0
    ∷ (flag_magic_bit + flag_pair)
    ∷ 2
    ∷ 336
    ∷ 0
    ∷ 808
    ∷ 0
    ∷ (flag_magic_bit + flag_pair)
    ∷ 2
    ∷ 808
    ∷ 0
    ∷ 856
    ∷ 0
    ∷ (flag_magic_bit + flag_pair)
    ∷ 2
    ∷ 0
    ∷ 856
    ∷ 904
    ∷ 0
    ∷ (flag_magic_bit + flag_pair)
    ∷ 2
    ∷ 904
    ∷ 0
    ∷ 952
    ∷ 0
    ∷ (flag_magic_bit + flag_pair)
    ∷ 2
    ∷ 0
    ∷ 952
    ∷ 1000
    ∷ 0
    ∷ (flag_magic_bit + flag_pair)
    ∷ 2
    ∷ 0
    ∷ 1000
    ∷ 1048
    ∷ 0
    ∷ (flag_magic_bit + flag_pair)
    ∷ 2
    ∷ 0
    ∷ 1048
    ∷ 1096
    ∷ 1096
    ∷ (flag_magic_bit + flag_pair)
    ∷ 2
    ∷ 760
    ∷ 0
    ∷ []

abbrev forms : Objects
forms = record store {
  heap = record { words = form_words; allocations = 25; capacity = 4096 };
  spair_marker = 48;
  satom_marker = 48;
  heap_chain = 1144;
  state_nodes = 8 ∷ 56 ∷ 104 ∷ 152 ∷ [];
}

-- In the middle of a run: two roots, one environment and one evaluation.
abbrev pub midway : Engine
midway = record (bare_engine forms 0) {
  roots = 200 ∷ 248 ∷ [];
  env_roots = 104 ∷ [];
  active_evals = 1;
}

abbrev pub run : Obj → Option (Result Obj × Engine)
run form = (door instructions host 12).eval form 104 midway

abbrev state : Option (Result Obj × Engine) → Engine
state none = midway
state (some (r, e)) = e

host-LeavesStacks : LeavesStacks host
host-LeavesStacks = record { at = λ addr words e. Same-refl e }

run_1144 : run 1144 ≡ some (err (raised 248), state (run 1144))
unfolding door x_engine_rust.Heap.word x_engine_rust.Engine.Syntax.error_prim
    x_engine_rust.Engine.Syntax.seq x_engine_rust.Heap.set_word
run_1144 = refl

eval-Restored_example : Restored midway (pushed (err (raised 248))) (state (run 1144))
eval-Restored_example =
    eval-Restored host host-LeavesStacks 12 1144 104 midway (state (run 1144)) (err (raised 248))
      run_1144

-- The loop at the form at 760, whose tail is the pair at 248.
abbrev looping : Engine
looping = record midway { roots = 200 ∷ 248 ∷ 760 ∷ []; env_roots = 104 ∷ 104 ∷ [] }

looping-Slotted : Slotted midway looping
looping-Slotted = record {
  form = 760;
  more = [];
  env = 104;
  roots = refl;
  env_roots = refl;
  control = refl;
  evals = refl;
  bases = refl;
  base = refl;
}

abbrev after_round : Option (Result Round × Engine) → Engine
after_round none = looping
after_round (some (r, e)) = e

abbrev once : Option (Result Round × Engine)
once = round instructions host (door instructions host 12) 760 104 looping

round_760 : once ≡ some (ok (again 248 104), after_round once)
unfolding door x_engine_rust.Heap.word x_engine_rust.Engine.Syntax.seq x_engine_rust.Heap.set_word
round_760 = refl

replace_slots-round_example :
    (t : Engine) × (replace_slots instructions host
        (door instructions host 12)
        2
        1
        248
        104
        (after_round once)
      ≡ some (ok tt, t))
    × (t.roots ≡ 200 ∷ 248 ∷ 248 ∷ [])
    × (t.env_roots ≡ 104 ∷ 104 ∷ [])
    × (t.control ≡ [])
    × (t.active_evals ≡ 1)
    × (t.base_stack ≡ [])
replace_slots-round_example =
    replace_slots-round host host-LeavesStacks 12 760 248 104 104 midway looping (after_round once)
      looping-Slotted round_760

listed : list 12 forms 760 ≡ some (200 ∷ 248 ∷ [])
unfolding list x_engine_rust.Heap.word
listed = refl

ended : spine_end 12 forms 760 ≡ some nil
unfolding spine_end x_engine_rust.Heap.word
ended = refl

resume_body-seq_steps_example :
    resume_body (door instructions host 12) 760 104 56 midway
    ≡ seq_steps (door instructions host 12) 760 104 56 (200 ∷ 248 ∷ []) midway
unfolding door
resume_body-seq_steps_example =
    resume_body-seq_steps (door instructions host 12) 760 104 56 (200 ∷ 248 ∷ []) midway listed
      ended
