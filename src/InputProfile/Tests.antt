-- ===== src/InputProfile/Tests.antt =====
-- Two devices as in the unit tests of src/domain/input_profile.rs.
use hidshift.Prelude.{List, [], ok, refl, ℕ, ◌∷◌, ◌≡◌}
use hidshift.InputProfile.Observe.{
  Call, IsRegistry, after, disconnecting, new_registry-IsRegistry, observing, run, run-IsRegistry,
}
use hidshift.InputProfile.Outcome.{Observed, observe-Observed}
use hidshift.InputProfile.{
  InputIdentity, add_at, disconnect, free_id_from, gone, has_id, has_identity, new_registry,
  observe, observe_found, observe_new, reset_transform_state, restored, same_identity, seen,
  take_sequence,
}

abbrev device : ℕ → InputIdentity
device n = record { vendor_id = 1; product_id = 2; instance_hash = n }

abbrev plugged : List Call
plugged = observing (device 1) ∷ observing (device 2) ∷ disconnecting 1 ∷ []

plugged-IsRegistry : IsRegistry (run new_registry plugged)
plugged-IsRegistry = run-IsRegistry new_registry plugged new_registry-IsRegistry

run-IsRegistry_example : IsRegistry (run new_registry plugged)
run-IsRegistry_example = run-IsRegistry new_registry plugged new_registry-IsRegistry

observe-Observed_example :
    Observed
      (run new_registry plugged).profiles
      (device 1)
      (observe (run new_registry plugged) (device 1))
observe-Observed_example = observe-Observed (run new_registry plugged) (device 1) plugged-IsRegistry

-- The device comes back under its id, and a third one gets the next.
comes_back : (observe (run new_registry plugged) (device 1)).0 ≡ ok 1
unfolding run after observe disconnect new_registry take_sequence observe_found observe_new add_at
    free_id_from has_id has_identity same_identity seen gone reset_transform_state restored
comes_back = refl

third_device : (observe (run new_registry plugged) (device 3)).0 ≡ ok 3
unfolding run after observe disconnect new_registry take_sequence observe_found observe_new add_at
    free_id_from has_id has_identity same_identity seen gone reset_transform_state restored
third_device = refl
