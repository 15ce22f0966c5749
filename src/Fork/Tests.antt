-- ===== src/Fork/Tests.antt =====
-- The theorems on lab3_fork/main.c at concrete inputs.
use secured_operation_system.Base.{◌≡◌, true, false, [], ◌∷◌, if◌then◌else◌, arith}
use secured_operation_system.Fork.Status.{
  exits, killed_by, status_of, report, described, report-status_of,
}
use secured_operation_system.Fork.Hierarchy.{
  main_initialized, created_child, child_report, parent_complete, cleanup_performed, goes_on,
  killed, execute_process_hierarchy,
}
use secured_operation_system.Fork.Laws.{
  all_work, told, initial_lines, printed_by_all, execute_process_hierarchy-told,
  execute_process_hierarchy-inherited,
}

report-status_of_example : report (status_of (killed_by 11 true)) ≡ described (killed_by 11 true)
report-status_of_example = report-status_of (killed_by 11 true) (omega arith)

execute_process_hierarchy-told_example :
    (execute_process_hierarchy (all_work 8) true 7 1 (killed 9) goes_on).parent ≡ record {
      printed =
          main_initialized 7 1
          ∷ created_child 8
          ∷ child_report (told (killed 9))
          ∷ parent_complete
          ∷ cleanup_performed 7
          ∷ [];
      ending = exits 0;
    }
execute_process_hierarchy-told_example =
    execute_process_hierarchy-told 8 7 1 true (killed 9) (omega arith)

execute_process_hierarchy-inherited_example :
    initial_lines
      (printed_by_all (execute_process_hierarchy (all_work 8) false 7 1 goes_on goes_on))
    ≡ (if false then 1 else 2)
execute_process_hierarchy-inherited_example =
    execute_process_hierarchy-inherited 8 7 1 false goes_on (λ sig e. ground (arith, e))
