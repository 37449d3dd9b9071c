-- ===== src/TargetControl/Alternation.antt =====
-- The order of the events that the debouncer of src/target_control.rs reports.
use mathlib.Core.Path.{subst}
use hidshift.TargetControl.{settle, DebouncedButton, DebouncedButtonEvent, update}
use hidshift.TargetControl.Debounce.{
  Outcome, Sample, button_after, button_after-reported, level, moved, settles, update-Outcome,
  waits,
}
use hidshift.Prelude.{true, ◌∙◌, Bool, List, Option, [], false, none, not, refl, some, ℕ, ◌∷◌, ◌≡◌}

unfoldable pub with_event :
    Option DebouncedButtonEvent → List DebouncedButtonEvent → List DebouncedButtonEvent
with_event none es = es
with_event (some e) es = e ∷ es

-- The events that these samples caused; both lists have the newest first.
unfoldable pub events_after : ℕ → List Sample → List DebouncedButtonEvent
unfolding button_after update with_event
events_after debounce_ms [] = []
events_after debounce_ms ((p, t) ∷ h) =
    with_event (update (button_after debounce_ms h) p t).0 (events_after debounce_ms h)

-- Presses and releases take turns, the oldest is a press, and the newest is a press if the button
-- is down.
unfoldable pub Alternating : Bool → List DebouncedButtonEvent → Type 0
Alternating down [] = down ≡ false
Alternating down (e ∷ es) = (level e ≡ down) × Alternating (not down) es

Outcome-Alternating :
    (b : DebouncedButton) (p : Bool) (t : ℕ) (es : List DebouncedButtonEvent)
    {o : Option DebouncedButtonEvent × DebouncedButton}
    → Outcome b p t o
    → b.press_reported ≡ b.stable_pressed
    → Alternating b.stable_pressed es
    → Alternating o.1.stable_pressed (with_event o.0 es)
unfolding with_event settle Alternating
Outcome-Alternating b p t es moved r a = a
Outcome-Alternating b p t es (waits _) r a = a
Outcome-Alternating b true t es (settles e u d) r a =
    let up : b.press_reported ≡ false = r ∙ u in rw up (refl, subst (λ s. Alternating s es) u a)
Outcome-Alternating b false t es (settles e u d) r a = (refl, subst (λ s. Alternating s es) u a)

-- From a released button, whatever the samples, the reported events alternate between a press and a
-- release and begin with a press, and the last of them agrees with the level that the debouncer
-- holds.
pub events_after-Alternating :
    (debounce_ms : ℕ) (h : List Sample)
    → Alternating (button_after debounce_ms h).stable_pressed (events_after debounce_ms h)
unfolding events_after button_after Alternating
events_after-Alternating debounce_ms [] = refl
events_after-Alternating debounce_ms ((p, t) ∷ h) =
    Outcome-Alternating (button_after debounce_ms h) p t (events_after debounce_ms h)
      (update-Outcome (button_after debounce_ms h) p t) (button_after-reported debounce_ms h)
      (events_after-Alternating debounce_ms h)
