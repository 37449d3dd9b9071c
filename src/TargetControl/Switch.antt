-- ===== src/TargetControl/Switch.antt =====
-- The intents of the switch of src/target_control.rs, against the debouncer run by itself on the
-- same samples.
use mathlib.Core.Path.{subst}
use hidshift.TargetControl.Debounce.{
  button_after-reported, update-Outcome, moved, settles, waits, Outcome, Sample, button_after,
}
use hidshift.TargetControl.{
  update, with_timings, ButtonIntent, clear_active_host_bond, enter_pairing_mode, intent,
  next_connected_target, on_event, settle, DebouncedButton, DebouncedButtonEvent,
  TargetSwitchControl, pressed_event, released_event, target_button_sample,
}
use hidshift.Prelude.{
  ◌-◌, Bool-cases, arith, inl, is_some, leb, refl, ◌<◌, ◌∙◌, ◌≤◌, Bool, List, Option, [], false,
  inr, none, some, true, ℕ, ◌∷◌, ◌≡◌, ◌⊎◌,
}

-- The switch after these samples, the newest first.
unfoldable pub switch_after : TargetSwitchControl → List Sample → TargetSwitchControl
unfolding target_button_sample
switch_after c [] = c
switch_after c ((p, t) ∷ h) = (target_button_sample (switch_after c h) p t).1

unfoldable pub is_released : Option DebouncedButtonEvent → Bool
is_released none = false
is_released (some pressed_event) = false
is_released (some released_event) = true

-- The debouncer with this debounce time took the button as pressed at the sample of this time, and
-- has had it down at every sample since, up to the newest.
unfoldable pub HoldSince : ℕ → ℕ → List Sample → Type 0
unfolding button_after
HoldSince debounce t [] = ⊥
HoldSince debounce t ((p, t2) ∷ h) =
    ((button_after debounce ((p, t2) ∷ h)).stable_pressed ≡ true)
    × (((t2 ≡ t) × ((button_after debounce h).stable_pressed ≡ false)) ⊎ HoldSince debounce t h)

-- The press that is remembered, while the debouncer has the button down.
unfoldable Remembered : ℕ → Option ℕ → Bool → List Sample → Type 0
Remembered debounce none down h = down ≡ false
Remembered debounce (some since) down h = (down ≡ true) × HoldSince debounce since h

-- The switch is the debouncer with the settings of `c` and the press that it remembers.
abbrev Inv : ℕ → TargetSwitchControl → TargetSwitchControl → List Sample → Type 0
Inv debounce c d h =
    (d.button ≡ button_after debounce h)
    × (d.long_press_ms ≡ c.long_press_ms)
    × (d.very_long_press_ms ≡ c.very_long_press_ms)
    × Remembered debounce d.pressed_since_ms (button_after debounce h).stable_pressed h

-- A press stays remembered over a sample that leaves the level of the debouncer.
Remembered-more :
    (debounce : ℕ) (since : Option ℕ) (s : Sample) (h : List Sample)
    → (button_after debounce (s ∷ h)).stable_pressed ≡ (button_after debounce h).stable_pressed
    → Remembered debounce since (button_after debounce h).stable_pressed h
    → Remembered debounce since (button_after debounce (s ∷ h)).stable_pressed (s ∷ h)
unfolding Remembered HoldSince
Remembered-more debounce none s h k r = k ∙ r
Remembered-more debounce (some since) s h k (down, hold) = (k ∙ down, (k ∙ down, inr hold))

-- The three events, and the level that the debouncer then has.
data Event (b b2 : DebouncedButton) (p : Bool) : Option DebouncedButtonEvent → Type 0 where
  nothing : b2.stable_pressed ≡ b.stable_pressed → Event b b2 p none
  pressed : b2.stable_pressed ≡ true → b.stable_pressed ≡ false → Event b b2 p (some pressed_event)
  released :
      b2.stable_pressed ≡ false → b.stable_pressed ≡ true → Event b b2 p (some released_event)

Outcome-Event :
    (b : DebouncedButton) (p : Bool) (t : ℕ) {o : Option DebouncedButtonEvent × DebouncedButton}
    → Outcome b p t o
    → b.press_reported ≡ b.stable_pressed
    → Event b o.1 p o.0
unfolding settle
Outcome-Event b p t moved r = nothing refl
Outcome-Event b p t (waits _) r = nothing refl
Outcome-Event b true t (settles e u d) r =
    let up : b.press_reported ≡ false = r ∙ u in rw up (pressed refl u)
Outcome-Event b false t (settles e u d) r = released refl u

-- The length of the hold decides.
abbrev pub ByLength : ℕ → ℕ → ℕ → ButtonIntent → Type 0
ByLength long very_long hold_ms i =
    ((i ≡ clear_active_host_bond) × (very_long ≤ hold_ms))
    ⊎ ((i ≡ enter_pairing_mode) × (long ≤ hold_ms) × (hold_ms < very_long))
    ⊎ ((i ≡ next_connected_target) × (hold_ms < long) × (hold_ms < very_long))

intent-ByLength :
    (c : TargetSwitchControl) (hold_ms : ℕ)
    → ByLength c.long_press_ms c.very_long_press_ms hold_ms (intent c hold_ms)
unfolding intent
intent-ByLength c hold_ms = elim (Bool-cases (leb c.very_long_press_ms hold_ms)) [
  | inl e ↦ rw e (inl (refl, ground arith))
  | inr e ↦ elim (Bool-cases (leb c.long_press_ms hold_ms)) [
    | inl e2 ↦ rw (e, e2) (inr (inl (refl, ground arith, ground arith)))
    | inr e2 ↦ rw (e, e2) (inr (inr (refl, ground arith, ground arith)))
  ]
]

-- What a sample gives and keeps, of a switch with a remembered press and an updated debouncer.
on_event-Event :
    (debounce : ℕ) (d : TargetSwitchControl) (since : Option ℕ) (p : Bool) (t : ℕ) (h : List Sample)
    {o : Option DebouncedButtonEvent}
    → d.pressed_since_ms ≡ since
    → d.button ≡ button_after debounce ((p, t) ∷ h)
    → Event (button_after debounce h) (button_after debounce ((p, t) ∷ h)) p o
    → Remembered debounce since (button_after debounce h).stable_pressed h
    → ((on_event d t o).1.button ≡ d.button)
      × ((on_event d t o).1.long_press_ms ≡ d.long_press_ms)
      × ((on_event d t o).1.very_long_press_ms ≡ d.very_long_press_ms)
      × Remembered debounce
          (on_event d t o).1.pressed_since_ms
          (button_after debounce ((p, t) ∷ h)).stable_pressed
          ((p, t) ∷ h)
      × (is_some (on_event d t o).0 ≡ is_released o)
unfolding on_event is_released Remembered HoldSince
on_event-Event debounce d since p t h e same (nothing k) r =
    (refl, refl, refl, rw e (Remembered-more debounce since (p, t) h k r), refl)
on_event-Event debounce d since p t h e same (pressed k u) r =
    (refl, refl, refl, (k, (k, inl (refl, u))), refl)
on_event-Event debounce d none p t h e same (released k u) r = absurd (ground arith)
on_event-Event debounce d (some s) p t h e same (released k u) r = rw e (refl, refl, refl, k, refl)

sample-Inv :
    (debounce : ℕ) (c d : TargetSwitchControl) (p : Bool) (t : ℕ) (h : List Sample)
    → Inv debounce c d h
    → Inv debounce c (target_button_sample d p t).1 ((p, t) ∷ h)
      × (is_some (target_button_sample d p t).0
          ≡ is_released (update (button_after debounce h) p t).0)
unfolding target_button_sample button_after
sample-Inv debounce c d p t h (e, l, v, r) =
    let b : DebouncedButton = button_after debounce h in
    let ev : Event b (update b p t).1 p (update b p t).0 =
      Outcome-Event b p t (update-Outcome b p t) (button_after-reported debounce h) in
    let (x1, x2, x3, x4, x5) =
      on_event-Event debounce (record d { button = (update b p t).1 }) d.pressed_since_ms p t h refl
        refl ev r in
    rw e ((x1, x2 ∙ l, x3 ∙ v, x4), x5)

switch_after-Inv :
    (debounce long very_long : ℕ) (h : List Sample)
    → let c : TargetSwitchControl = with_timings debounce long very_long in
      Inv debounce c (switch_after c h) h
unfolding switch_after with_timings button_after Remembered
switch_after-Inv debounce long very_long [] = (refl, refl, refl, refl)
switch_after-Inv debounce long very_long ((p, t) ∷ h) =
    let c : TargetSwitchControl = with_timings debounce long very_long in
    (sample-Inv debounce c (switch_after c h) p t h (switch_after-Inv debounce long very_long h)).0

-- The switch gives an intent exactly when a debouncer with its debounce time, run by itself on the
-- same samples, reports a release: no release is lost, and nothing else gives an intent.
pub target_button_sample-is_released :
    (debounce long very_long : ℕ) (h : List Sample) (p : Bool) (t : ℕ)
    → is_some (target_button_sample (switch_after (with_timings debounce long very_long) h) p t).0
      ≡ is_released (update (button_after debounce h) p t).0
target_button_sample-is_released debounce long very_long h p t =
    let c : TargetSwitchControl = with_timings debounce long very_long in
    (sample-Inv debounce c (switch_after c h) p t h (switch_after-Inv debounce long very_long h)).1

on_event-ByLength :
    (debounce : ℕ) (d : TargetSwitchControl) (since : Option ℕ) (down : Bool) (t : ℕ)
    (h : List Sample) (o : Option DebouncedButtonEvent) {i : ButtonIntent}
    → d.pressed_since_ms ≡ since
    → Remembered debounce since down h
    → (on_event d t o).0 ≡ some i
    → (s : ℕ) × HoldSince debounce s h × ByLength d.long_press_ms d.very_long_press_ms (t - s) i
unfolding on_event Remembered
on_event-ByLength debounce d since down t h none e r k = cc
on_event-ByLength debounce d since down t h (some pressed_event) e r k = cc
on_event-ByLength debounce d none down t h (some released_event) {i = i} e r k =
    let k2 : none ≡ some i = rw e at k in cc
on_event-ByLength debounce d (some s) down t h (some released_event) {i = i} e (_, m) k =
    let k2 : some (intent d (t - s)) ≡ some i = rw e at k in
    let same : intent d (t - s) ≡ i = cc in
    (
      s,
      m,
      subst (ByLength d.long_press_ms d.very_long_press_ms (t - s)) same
          (intent-ByLength d (t - s)),
    )

sample-ByLength :
    (debounce : ℕ) (c d : TargetSwitchControl) (p : Bool) (t : ℕ) (h : List Sample)
    {i : ButtonIntent}
    → Inv debounce c d h
    → (target_button_sample d p t).0 ≡ some i
    → (s : ℕ) × HoldSince debounce s h × ByLength c.long_press_ms c.very_long_press_ms (t - s) i
unfolding target_button_sample
sample-ByLength debounce c d p t h {i = i} (_, l, v, r) k =
    let d2 : TargetSwitchControl = record d { button = (update d.button p t).1 } in
    let (s, m, by) =
      on_event-ByLength debounce d2 d.pressed_since_ms _ t h (update d.button p t).0 refl r k in
    let by2 : ByLength d.long_press_ms d.very_long_press_ms (t - s) i = by in
    (
      s,
      m,
      subst (λ n. ByLength c.long_press_ms n (t - s) i) v
          (subst (λ n. ByLength n d.very_long_press_ms (t - s) i) l by2),
    )

-- An intent goes by the length of the hold that it ends: with `since` the time of the sample at which
-- the debouncer took the button as pressed, and the button down for it at every sample from then up to
-- the one before this, the hold is the time from `since` to now; at least the very long press clears
-- the bond, else at least the long press pairs, else it is the next target.
pub target_button_sample-ByLength :
    (debounce long very_long : ℕ) (h : List Sample) (p : Bool) (t : ℕ) {i : ButtonIntent}
    → (target_button_sample (switch_after (with_timings debounce long very_long) h) p t).0 ≡ some i
    → (since : ℕ) × HoldSince debounce since h × ByLength long very_long (t - since) i
unfolding with_timings
target_button_sample-ByLength debounce long very_long h p t k =
    let c : TargetSwitchControl = with_timings debounce long very_long in
    sample-ByLength debounce c (switch_after c h) p t h (switch_after-Inv debounce long very_long h)
      k
