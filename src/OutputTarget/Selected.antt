-- ===== src/OutputTarget/Selected.antt =====
-- The state of src/output_target.rs under any calls.
use hidshift.Prelude.{List, [], ok, ◌<◌, ◌^◌, ◌∷◌, ◌≡◌}
use hidshift.OutputTarget.{
  OutputTarget, OutputTargetAvailability, OutputTargetState, active_for, begin_transition, select,
  set_availability, validate,
}

pub data Call : Type 0 where
  selecting : OutputTarget → Call
  becoming : OutputTargetAvailability → Call
  transition : Call

unfoldable pub after : OutputTargetState → Call → OutputTargetState
unfolding select set_availability begin_transition
after s (selecting target) = (select s target).1
after s (becoming availability) = set_availability s availability
after s transition = (begin_transition s).1

unfoldable pub run : OutputTargetState → List Call → OutputTargetState
unfolding after
run s [] = s
run s (call ∷ calls) = run (after s call) calls

-- Input goes to the selected target exactly while it is ready, the selected target is a valid one,
-- and the counter is a u32.
pub record IsConsistent (s : OutputTargetState) : Type 0 where
  pub active : s.active ≡ active_for s.availability s.selected
  pub valid : validate s.selected ≡ ok s.selected
  pub counter : s.transition_operation_id < 2 ^ 32
