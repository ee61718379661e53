-- ===== src/Tests/Frames.antt =====
-- A frame of a concrete store: the pair at 56 as a holder, whose chain is the cell at 8. The cell holds
-- the pair at 56, whose name is the object 8, and what follows the cell is nil.
use x_engine_rust.Prelude.{◌≡◌, refl, ap, ◌∙◌, false, none, some, [], ◌∷◌}
use mathlib.Core.Option.{some-injective}
use x_engine_rust.Obj.{Obj, is_nil}
use x_engine_rust.Heap.{word}
use x_engine_rust.Objects.{data_word, first, rest}
use x_engine_rust.Env.{Envs, map_get, find_in_frame, scan, reindex, chain_len, chain_slot}
use x_engine_rust.Env.Shadow.{Shadows, Reindexed, find_in_frame-reindex}
use x_engine_rust.Tests.{store}

-- The frame at 56 with an empty shadow map, and a frame at 8 with one of its own.
abbrev frames : Envs
frames = record { index = (56, []) ∷ (8, (3, 8) ∷ []) ∷ []; made = 2 }

in_use : is_nil (data_word store 56 chain_slot) ≡ false
unfolding is_nil data_word word
in_use = refl

on_top : first store (data_word store 56 chain_slot) ≡ 56
unfolding first data_word word
on_top = refl

its_name : first store 56 ≡ 8
unfolding first data_word word
its_name = refl

one_cell : chain_len 3 store (data_word store 56 chain_slot) ≡ some 1
unfolding chain_len rest data_word word
one_cell = refl

nothing_behind : (k : Obj) → scan 2 store (rest store (data_word store 56 chain_slot)) k ≡ some none
unfolding scan rest data_word word
nothing_behind k = refl

before : Shadows 2 frames store 56 (rest store (data_word store 56 chain_slot))
before m there k = nothing_behind k ∙ ap (λ z. some (map_get z k)) (some-injective [] m there)

find_in_frame-reindex_example :
    (e : Envs) × (reindex 3 frames store 56 8 56 ≡ some e)
    × ((k : Obj) → find_in_frame 3 e store 56 k ≡ scan 3 store (data_word store 56 chain_slot) k)
    × Reindexed 3 frames store 56 e
find_in_frame-reindex_example =
    find_in_frame-reindex 2 frames store 56 8 56 1 in_use on_top its_name before one_cell
