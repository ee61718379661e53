-- ===== src/Engine/Balance/Tables.antt =====
-- src/prims/mod.rs: every row of the tables is balanced.
use x_engine_rust.Prelude.{List, [], ◌∷◌, ◌++◌}
use x_engine_rust.Engine.{PrimDef}
use x_engine_rust.Engine.Syntax.{def}
use x_engine_rust.Engine.Rows.{
  arg, heap_collect, heap_count_prim, heap_part, heap_pin, heap_list, alloc_limit_prim,
}
use x_engine_rust.Instructions.{str_to_sym, sym_to_str}
use x_engine_rust.Instructions.Counts.{mark_hooks, free_hooks, mark_roots}
use x_engine_rust.Engine.Tables.{
  heap_check, binding_table, closure_table, control_table, quote_table, core_table, base_table,
  callcc_table, heap_table, num_table, obj_rows, str_table, iter_table, eval_handler_table,
  call_entries, instructions,
}
use x_engine_rust.Engine.Balance.Rows.{IsStep}
use x_engine_rust.Engine.Balance.Steps.{
  def-IsStep, set_bang-IsStep, func-IsStep, operative_prim-IsStep, seq-IsStep, error_prim-IsStep,
  guard-IsStep, match_prim-IsStep, lit-IsStep, eval_in-IsStep, eval_here-IsStep, apply_prim-IsStep,
  wrap_row-IsStep, unwrap_row-IsStep, tail_eval-IsStep, base_prim-IsStep, sym_eval-IsStep,
  list_eval-IsStep, callable_call-IsStep, procedure_entry-IsStep, operative_entry-IsStep,
  wrap_entry-IsStep, cont_entry-IsStep, list_call-IsStep, call_cc-IsStep, cc_invoke-IsStep,
}
use x_engine_rust.Engine.Balance.Leaves.{
  tower2-IsStep, tower_pred-IsStep, int2-IsStep, int1-IsStep, subtract-IsStep, uniform_value-IsStep,
  uniform_engine-IsStep, base_make-IsStep, base_eval-IsStep, base_bind-IsStep, iter_next-IsLeaf,
  iter_empty-IsLeaf, iter_step-IsLeaf, type_of-IsLeaf, make_instance-IsLeaf, obj_make-IsLeaf,
  heap_collect-IsLeaf, heap_count-IsLeaf, heap_part-IsLeaf, heap_pin-IsLeaf, heap_check-IsLeaf,
  heap_list-IsLeaf, alloc_limit-IsLeaf, makes-IsLeaf,
}

-- Every row of a table is balanced.
abbrev pub AllSteps : List PrimDef → Type 0
AllSteps [] = Unit
AllSteps (def ∷ rows) = IsStep def.f × AllSteps rows

AllSteps-append : (xs ys : List PrimDef) → AllSteps xs → AllSteps ys → AllSteps (xs ++ ys)
AllSteps-append [] ys a b = b
AllSteps-append (x ∷ xs) ys (z, a) b = (z, AllSteps-append xs ys a b)

syntax-AllSteps :
    AllSteps (binding_table ++ (closure_table ++ (control_table ++ (quote_table ++ core_table))))
syntax-AllSteps = (
  def-IsStep,
  (
    set_bang-IsStep,
    (
      func-IsStep,
      (
        operative_prim-IsStep,
        (
          seq-IsStep,
          (
            error_prim-IsStep,
            (
              guard-IsStep,
              (
                match_prim-IsStep,
                (
                  lit-IsStep,
                  (
                    eval_in-IsStep,
                    (
                      eval_here-IsStep,
                      (
                        apply_prim-IsStep,
                        (
                          seq-IsStep,
                          (
                            wrap_row-IsStep,
                            (unwrap_row-IsStep, (tail_eval-IsStep, (base_prim-IsStep, tt))),
                          ),
                        ),
                      ),
                    ),
                  ),
                ),
              ),
            ),
          ),
        ),
      ),
    ),
  ),
)

heap-AllSteps : AllSteps (base_table ++ (callcc_table ++ heap_table))
heap-AllSteps = (
  base_make-IsStep,
  (
    base_eval-IsStep,
    (
      base_bind-IsStep,
      (
        call_cc-IsStep,
        (
          cc_invoke-IsStep,
          (
            uniform_engine-IsStep 0 heap_count_prim heap_count-IsLeaf,
            (
              uniform_engine-IsStep 0 heap_collect heap_collect-IsLeaf,
              (
                uniform_engine-IsStep 0 heap_part heap_part-IsLeaf,
                (
                  uniform_engine-IsStep 0 heap_part heap_part-IsLeaf,
                  (
                    uniform_engine-IsStep 1 heap_pin heap_pin-IsLeaf,
                    (
                      uniform_engine-IsStep 0 heap_check heap_check-IsLeaf,
                      (
                        uniform_engine-IsStep 1 (heap_list mark_hooks)
                            (heap_list-IsLeaf mark_hooks),
                        (
                          uniform_engine-IsStep 1 (heap_list free_hooks)
                              (heap_list-IsLeaf free_hooks),
                          (
                            uniform_engine-IsStep 1 (heap_list mark_roots)
                                (heap_list-IsLeaf mark_roots),
                            (uniform_engine-IsStep 1 alloc_limit_prim alloc_limit-IsLeaf, tt),
                          ),
                        ),
                      ),
                    ),
                  ),
                ),
              ),
            ),
          ),
        ),
      ),
    ),
  ),
)

num-AllSteps : AllSteps num_table
num-AllSteps = (
  tower2-IsStep _ _,
  (
    subtract-IsStep,
    (
      tower2-IsStep _ _,
      (
        int2-IsStep _ _,
        (
          int2-IsStep _ _,
          (
            int2-IsStep _ _,
            (
              int2-IsStep _ _,
              (
                int2-IsStep _ _,
                (
                  int1-IsStep _ _,
                  (
                    tower_pred-IsStep _ _,
                    (
                      tower_pred-IsStep _ _,
                      (
                        tower2-IsStep _ _,
                        (
                          tower2-IsStep _ _,
                          (uniform_value-IsStep _ _, (uniform_value-IsStep _ _, tt)),
                        ),
                      ),
                    ),
                  ),
                ),
              ),
            ),
          ),
        ),
      ),
    ),
  ),
)

obj-AllSteps : AllSteps obj_rows
obj-AllSteps = (
  uniform_value-IsStep _ _,
  (
    uniform_value-IsStep _ _,
    (
      uniform_value-IsStep _ _,
      (
        uniform_value-IsStep _ _,
        (
          uniform_value-IsStep _ _,
          (
            uniform_engine-IsStep _ _ type_of-IsLeaf,
            (
              uniform_value-IsStep _ _,
              (
                uniform_engine-IsStep _ _ make_instance-IsLeaf,
                (uniform_engine-IsStep _ _ obj_make-IsLeaf, (uniform_value-IsStep _ _, tt)),
              ),
            ),
          ),
        ),
      ),
    ),
  ),
)

str-AllSteps : AllSteps str_table
str-AllSteps = (
  uniform_value-IsStep _ _,
  (
    uniform_value-IsStep _ _,
    (
      uniform_value-IsStep _ _,
      (
        uniform_value-IsStep _ _,
        (
          uniform_value-IsStep _ _,
          (
            uniform_engine-IsStep _ _
                (makes-IsLeaf (λ h fuel s vals. str_to_sym h.lossy fuel s (arg vals 0))),
            (
              uniform_engine-IsStep _ _
                  (makes-IsLeaf (λ h fuel s vals. sym_to_str h.lossy fuel s (arg vals 0))),
              (uniform_value-IsStep _ _, tt),
            ),
          ),
        ),
      ),
    ),
  ),
)

entry-AllSteps : AllSteps (iter_table ++ (eval_handler_table ++ call_entries))
entry-AllSteps = (
  uniform_value-IsStep _ _,
  (
    uniform_engine-IsStep _ _ iter_next-IsLeaf,
    (
      uniform_engine-IsStep _ _ iter_empty-IsLeaf,
      (
        uniform_engine-IsStep _ _ iter_step-IsLeaf,
        (
          sym_eval-IsStep,
          (
            list_eval-IsStep,
            (
              procedure_entry-IsStep,
              (
                operative_entry-IsStep,
                (
                  wrap_entry-IsStep,
                  (cont_entry-IsStep, (callable_call-IsStep, (list_call-IsStep, tt))),
                ),
              ),
            ),
          ),
        ),
      ),
    ),
  ),
)

-- Every instruction that is modelled is balanced over balanced doors.
pub instructions-AllSteps : AllSteps instructions
instructions-AllSteps =
    AllSteps-append
      (binding_table ++ (closure_table ++ (control_table ++ (quote_table ++ core_table))))
      (base_table
        ++ (callcc_table
            ++ (heap_table
                ++ (num_table
                    ++ (obj_rows
                        ++ (str_table ++ (iter_table ++ (eval_handler_table ++ call_entries))))))))
      syntax-AllSteps
      (AllSteps-append (base_table ++ (callcc_table ++ heap_table))
        (num_table
          ++ (obj_rows ++ (str_table ++ (iter_table ++ (eval_handler_table ++ call_entries)))))
        heap-AllSteps
        (AllSteps-append num_table
          (obj_rows ++ (str_table ++ (iter_table ++ (eval_handler_table ++ call_entries))))
          num-AllSteps
          (AllSteps-append obj_rows
            (str_table ++ (iter_table ++ (eval_handler_table ++ call_entries))) obj-AllSteps
            (AllSteps-append str_table (iter_table ++ (eval_handler_table ++ call_entries))
              str-AllSteps entry-AllSteps))))
