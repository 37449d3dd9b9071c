-- ===== src/TargetControl/Tests.antt =====
-- Presses as in the unit tests of src/target_control.rs.
use hidshift.TargetControl.Alternation.{Alternating, events_after, events_after-Alternating}
use hidshift.TargetControl.Recovery.{factory_reset-held, recovery_after}
use hidshift.TargetControl.Switch.{
  ByLength, HoldSince, is_released, switch_after, target_button_sample-ByLength,
  target_button_sample-is_released,
}
use hidshift.TargetControl.Debounce.{Sample, SteadySince, button_after, update_steady}
use hidshift.TargetControl.{
  clear_active_host_bond, factory_reset, intent, new_button, new_recovery, on_event, released_event,
  sample, settle, target_button_sample, update, with_timings,
}
use hidshift.Prelude.{
  List, [], false, is_some, refl, saturating_add64, some, true, ℕ, ◌-◌, ◌∷◌, ◌≡◌, ◌≤◌,
}

-- Newest first: down at 0 and 30, and up at 900.
abbrev very_long_hold : List Sample
very_long_hold = (false, 900) ∷ (true, 830) ∷ (true, 30) ∷ (true, 0) ∷ []

clears_the_bond :
    (target_button_sample (switch_after (with_timings 30 300 800) very_long_hold) false 930).0
    ≡ some clear_active_host_bond
unfolding target_button_sample switch_after with_timings update settle on_event intent new_button
clears_the_bond = refl

release_is_reported : (update (button_after 30 very_long_hold) false 930).0 ≡ some released_event
unfolding button_after update settle new_button
release_is_reported = refl

target_button_sample-ByLength_example :
    (since : ℕ) × HoldSince 30 since very_long_hold
    × ByLength 300 800 (930 - since) clear_active_host_bond
target_button_sample-ByLength_example =
    target_button_sample-ByLength 30 300 800 very_long_hold false 930 clears_the_bond

target_button_sample-is_released_example :
    is_some
      (target_button_sample (switch_after (with_timings 30 300 800) very_long_hold) false 930).0
    ≡ is_released (update (button_after 30 very_long_hold) false 930).0
target_button_sample-is_released_example =
    target_button_sample-is_released 30 300 800 very_long_hold false 930

update_steady_example :
    (false ≡ false) × (since : ℕ) × SteadySince false since very_long_hold × (30 ≤ 930 - since)
update_steady_example = update_steady 30 very_long_hold false 930 release_is_reported

events_after-Alternating_example :
    Alternating (button_after 30 very_long_hold).stable_pressed (events_after 30 very_long_hold)
events_after-Alternating_example = events_after-Alternating 30 very_long_hold

-- Newest first: up at 2000, down at 2500 and 7499; the window is 3000 and the hold 5000.
abbrev recovery_hold : List Sample
recovery_hold = (true, 7499) ∷ (true, 2500) ∷ (false, 2000) ∷ []

resets :
    (sample (recovery_after (new_recovery 0 3000 5000) recovery_hold) false 7500).0 ≡ factory_reset
unfolding sample recovery_after new_recovery
resets = refl

factory_reset-held_example :
    (false ≡ false)
    × (since : ℕ) × (since ≤ saturating_add64 0 3000)
    × SteadySince true since recovery_hold
    × (5000 ≤ 7500 - since)
factory_reset-held_example = factory_reset-held 0 3000 5000 recovery_hold false 7500 resets
