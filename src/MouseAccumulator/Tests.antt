-- ===== src/MouseAccumulator/Tests.antt =====
-- Movements as in the unit tests of src/mouse_accumulator.rs.
use hidshift.MouseAccumulator.Conserve.{
  Balanced, Op, fresh, offered, run, run-Balanced, step, taking,
}
use hidshift.MouseAccumulator.{
  MouseReport, PendingMouseState, add_movement, clamp, push_state, saturating_add, take_axis,
  take_axis_i16, take_axis_i8, take_state,
}
use hidshift.Prelude.Int.{negsuc, pos, ◌+ℤ◌, ◌-ℤ◌}
use hidshift.Prelude.{List, [], refl, true, ◌∷◌, ◌≡◌}

abbrev right : MouseReport
right = record {
  buttons = 1;
  movement = record { x = pos 30000; y = negsuc 9; wheel = pos 0; pan = pos 0 };
}

abbrev ops : List Op
ops = offered right ∷ offered right ∷ taking ∷ []

-- Two reports of 30000 are one of 32767, and 27233 wait.
coalesces : (run fresh ops).taken.x ≡ pos 32767
unfolding run fresh step push_state take_state add_movement saturating_add take_axis_i16
    take_axis_i8 take_axis clamp ◌+ℤ◌ ◌-ℤ◌
coalesces = refl

unsaturated : (run fresh ops).stats.movement_saturated ≡ 0
unfolding run fresh step push_state take_state add_movement saturating_add
unsaturated = refl

run-Balanced_example : Balanced (run fresh ops)
run-Balanced_example = run-Balanced ops unsaturated

abbrev far : PendingMouseState
far = record {
  buttons = 0;
  x = pos 60000;
  y = negsuc 9;
  wheel = pos 200;
  pan = pos 0;
  pending = true;
}
