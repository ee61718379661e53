-- ===== src/Lib.antt =====
-- The storage, the objects and the evaluator of x-engine-rust, an engine for the language x-lang.
--
-- The program's parts. An arena of 64-bit words (src/heap.rs) is the whole store. Objects
-- (src/objects.rs) are laid out in it: a header of four words (heap link, type, flags, length), the
-- data words, and meta words below the header when the current base asks for them. Every object is
-- threaded on a chain through its heap link, which the sweep (src/collect.rs) walks; an object
-- without a mark goes on a free list by size, from which allocation takes it again. Values
-- (src/value/), bases (src/base.rs) and environments (src/env.rs) are objects of this store, and
-- the integer instructions (src/prims/num.rs) are operators on its data words.
-- The engine (src/engine.rs) holds this store, the environments, and the stacks of what is rooted, of
-- what is left to do and of the bases that are left. Its evaluator (src/eval.rs) looks for the eval
-- handler of a form's type and for the call handler of a callee's type; both are instructions
-- (src/prims/, src/syntax/) or values that it applies. An instruction may evaluate, capture a
-- continuation (src/prims/callcc.rs), enter another base or collect. A session (src/session.rs)
-- reads forms and evaluates them.
--
-- The files and what they model.
--   Prelude: shared names, tests on numbers, lists, signed integers (Int), and the bitwise operators
--     on blocks of bits (Bits).
--   Obj: src/obj.rs. `Obj`, `Addr`, `Word`, `Flags` and `EnvId` are numbers below 2 ^ 64, an `i64`
--     is an integer, `plus` and `offset` wrap. Obj.Laws has its theorems.
--   Heap: src/heap.rs. The record `Heap` has the words, the count of allocations and the capacity
--     of the reservation; each method is a function of its name. Words, Places, Bytes, Grow, Wide,
--     Blocks, Packing, Storing and Text hold the theorems, from words to strings. `IsValid` is the
--     invariant: word 0 is there, the words fit the reservation and each fits 64 bits.
--   Objects: src/objects.rs, with `take_free` of src/collect.rs. The record `Objects` has the fields
--     that allocation, collection and the accessors read. `lay_out` is `alloc` behind `stamp_for`,
--     `reuse` and `grow` are its two branches, `count_alloc` its counters; `data_word` is the
--     method `data`. The child modules follow an allocation: Header, Layout, Reuse, Grown, Alloc,
--     FreeList, then Exhausted for its failure and Spared for what it leaves alone; Kinds has the
--     flag constants and the table of kind names. `alloc` itself, with `stamp_for` and the builtin
--     types, is in Typed.Builtin, and `Objects::new` in Value.Make.
--   Collect: src/collect.rs. `mark` with `visit` for one round, `sweep` with `sweep_loop` and
--     `release`. Chain, Round, Rounds and Sweep prove the sweep. Edges has the graph that marking
--     follows, Marks a state with some objects marked, Visit a round, Tracing the invariant of the
--     loop, Mark the pass, and Whole a pass with the sweep after it, as `collect` runs them.
--   Num: src/prims/num.rs, the operators of the raw integer instructions. Num.Division has the
--     theorems on division and shifts.
--   Value: src/value/ and the cursor methods of src/read.rs (Value.Buffer). Value.Text has strings
--     and handles, and Value.Make the constructors and interning. Value.Pairs proves the structural
--     pair, Value.Atoms the objects of one word, and Value.Interned interning.
--   Base: src/base.rs, the spine's slots and the global tree; Base.Build makes a base.
--   Symbols: src/symbols.rs, with a name as its bytes.
--   Env: src/env.rs. A `HashMap` is an association list. Env.Index relates the shadow map to the
--     scan, Env.Shadow follows it through the bindings of a frame, and Env.Frames makes frames and
--     binds parameters.
--   Typed: src/value/typed.rs and the enum of src/vocabulary.rs; Typed.Places has the places.
--   Instructions: src/prims/str.rs, and the instructions on objects, characters, pointers and
--     iterators of src/prims/, each behind the evaluation of its operands. Instructions.Counts has
--     the count of the heap and the lists that the collector reads.
--   Pending: src/eval.rs, the rows of the base in which the evaluator keeps its pending state;
--     Pending.Rows has the theorems.
--   Buffer: src/prims/tok.rs, the instructions on buffers.
--   Reader: src/read.rs. The state is a `Reader`, the store with the input stream, of which only a
--     function that pulls a byte is known. Reader.Literals reads strings, characters and atoms,
--     Reader.Forms lists and forms; UTF-8 and the parsing of numbers are parameters.
--     Reader.Ahead and Reader.Blanks are about its loops over a text.
--   Pointer: src/prims/ptr.rs; Pointer.Wide relates it to the arena. The memory of the process is a
--     parameter: a state with a read and a write of one byte.
--   Tok: src/prims/tok.rs and the character tests of src/read.rs; Tok.Value has the value of a token.
--   Engine: the record `Engine` of src/engine.rs, less its table of instructions and its open files,
--     with the control records, the conditions, and the actions: an action takes an engine and
--     gives a result, which is a value or a condition, and an engine. `none` is a run that does not
--     return. `Host` has what is outside of the source: machine code, the decoding of text, the
--     address of the arena, and the names that the build stamps. `Door` has the ways back into the
--     evaluator that an instruction gets.
--   Engine.Apply, Engine.Operators: src/eval.rs, how a combiner is applied and the operator tower,
--     with the macros of src/prim.rs. Engine.Run: the loop of `eval_pending`, `combine`, and the
--     doors as a whole.
--   Engine.Gc: src/collect.rs, the root sets, the hooks and `collect`. Engine.Collection joins it to
--     the theorems of Collect.
--   Engine.Escape: src/prims/callcc.rs; Engine.Replay is about its body records.
--   Engine.Syntax: src/syntax/ and the value of a condition of src/diag.rs.
--   Engine.Doors, Engine.Rows, Engine.Tables: src/prims/core.rs, src/prims/iter.rs,
--     src/prims/heap.rs and the rest of src/prims/obj.rs, and the tables of all instructions. Engine.Check is about the
--     debug check of the heap.
--   Engine.Bases, Engine.Boot: src/engine.rs and src/prims/base.rs, the bases and the start.
--   Engine.Session: src/session.rs. The reading of a form is an argument.
--   Engine.Balance: what an action does to the stacks. Brackets has the pairs of a push and a pop,
--     Doors the ways to apply, Rows, Steps, Leaves and Tables the instructions, Loop the loop of the
--     evaluator, Closed the doors as a whole, and Tails the tail call.
--   Tests: concrete arenas and stores, with each theorem at one of them.
--
-- Bounds and fuel. The reservation is at most 2 ^ 40 words, so that no address in the arena wraps;
-- the source reserves 2 ^ 30. `none` stands for a run that does not return: the reservation is
-- exhausted, or a walk on fuel meets a cycle. `bytes_at` carries its own fuel, one more than the
-- bytes of the arena, past which every byte is zero; the sweep needs as much fuel as the chain has
-- objects; the mark pass needs as much as there are roots, and for each object one more than its
-- data words; a walk of a frame or a spine needs as much as it has cells; a loop of the reader
-- needs as much as there are bytes to come. The doors of the evaluator have one unit of fuel
-- for each evaluation inside of another, which is also what the rounds of a loop and the walks of an
-- instruction get; out of fuel they do not return. The flag of the signal handler is a list of what
-- its next readings answer.
--
-- Where a debug build panics on an overflow, in the shifts of a little-endian access and in the sign
-- of a token, the model masks or wraps as a release build does. Counters do not wrap.
--
-- Not modelled. The checks that debug builds compile in, and the descriptions of words for them; the
-- reader of forms with macros (src/form.rs) and the contest of the tokenizer (src/prims/tok.rs); the
-- instructions on files, on output and on the system (src/prims/io.rs, src/prims/sys.rs), which are
-- the host's, with the printing of diagnostics; the installation of handlers by name, and the
-- instruction that makes a type of them; the foreign door, the jit and floating point, which are the
-- host's too. The rows of src/prims/ptr.rs and src/prims/tok.rs are not in the table, although their
-- bodies are modelled.
pub mod Prelude
pub mod Obj
pub mod Heap
pub mod Objects
pub mod Collect
pub mod Num
pub mod Value
pub mod Base
pub mod Env
pub mod Symbols
pub mod Typed
pub mod Pointer
pub mod Tok
pub mod Instructions
pub mod Pending
pub mod Buffer
pub mod Reader
pub mod Engine
pub mod Tests
