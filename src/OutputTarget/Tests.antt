-- ===== src/OutputTarget/Tests.antt =====
-- Selections as in the unit tests of src/output_target.rs.
use hidshift.OutputTarget.{
  ble, ble_host_ready, computer_at, next_ready_computer_target, or_later, scan_computers,
  selected_index, wired_computer,
}
use hidshift.OutputTarget.Next.{of_ble, IsReady, next_ready_computer_target-none}
use hidshift.Prelude.{arith, false, none, refl, ◌≡◌}

alone : next_ready_computer_target (ble 4) false 8 none ≡ none
unfolding next_ready_computer_target selected_index computer_at wired_computer ble_host_ready
    scan_computers or_later
alone = refl

next_ready_computer_target-none_example : ¬ IsReady false 8 none 2
next_ready_computer_target-none_example =
    next_ready_computer_target-none (ble 4) false 8 none 2 (of_ble 4 (λ e. cc)) (omega arith) alone
      (omega arith) (omega arith)
