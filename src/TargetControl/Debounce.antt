-- ===== src/TargetControl/Debounce.antt =====
-- What the debouncer of src/target_control.rs reports.
use mathlib.Core.Path.{subst}
use hidshift.TargetControl.{
  same_bool, DebouncedButton, DebouncedButtonEvent, new_button, pressed_event, released_event,
  settle, update,
}
use hidshift.Prelude.{
  sym, some, ◌∙◌, Bool-cases, Option, arith, inl, inr, ltb, none, not, refl, ◌-◌, ◌≤◌, Bool, List,
  [], false, true, ℕ, ◌∷◌, ◌≡◌, ◌⊎◌,
}

-- A sample: the level of the button, and the time.
abbrev pub Sample : Type 0
Sample = Bool × ℕ

-- The button after these samples, the newest first.
unfoldable pub button_after : ℕ → List Sample → DebouncedButton
unfolding new_button update
button_after debounce_ms [] = new_button debounce_ms
button_after debounce_ms ((p, t) ∷ h) = (update (button_after debounce_ms h) p t).1

-- The newest samples, back to one at the time `t`, all have the level `p`.
pub data SteadySince (p : Bool) (t : ℕ) : List Sample → Type 0 where
  here : {h : List Sample} → SteadySince p t ((p, t) ∷ h)
  later : {h : List Sample} {t2 : ℕ} → SteadySince p t h → SteadySince p t ((p, t2) ∷ h)

abbrev pub level : DebouncedButtonEvent → Bool
level pressed_event = true
level released_event = false

-- What the button remembers of its samples.
abbrev Remembers : DebouncedButton → List Sample → Type 0
Remembers b h =
    SteadySince b.candidate_pressed b.candidate_since_ms h
    ⊎ ((b.candidate_pressed ≡ false) × (b.stable_pressed ≡ false))

same_bool-eq : (a b : Bool) → same_bool a b ≡ true → a ≡ b
same_bool-eq true true h = refl
same_bool-eq true false h = cc
same_bool-eq false true h = cc
same_bool-eq false false h = refl

same_bool-ne : (a b : Bool) → same_bool a b ≡ false → b ≡ not a
same_bool-ne true true h = cc
same_bool-ne true false h = refl
same_bool-ne false true h = refl
same_bool-ne false false h = cc

-- The three ways of an update.
pub data Outcome (b : DebouncedButton) (p : Bool) (t : ℕ)
    : Option DebouncedButtonEvent × DebouncedButton → Type 0 where
  moved : Outcome b p t (none, record b { candidate_pressed = p; candidate_since_ms = t })
  waits : p ≡ b.candidate_pressed → Outcome b p t (none, b)
  settles :
      p ≡ b.candidate_pressed
      → b.stable_pressed ≡ not p
      → b.debounce_ms ≤ t - b.candidate_since_ms
      → Outcome b p t (settle b p)

pub update-Outcome : (b : DebouncedButton) (p : Bool) (t : ℕ) → Outcome b p t (update b p t)
unfolding update
update-Outcome b p t = elim (Bool-cases (same_bool p b.candidate_pressed)) [
  | inr e ↦ rw e moved
  | inl e ↦ elim (Bool-cases (same_bool p b.stable_pressed)) [
    | inl e2 ↦ rw (e, e2) (waits (same_bool-eq p b.candidate_pressed e))
    | inr e2 ↦ elim (Bool-cases (ltb (t - b.candidate_since_ms) b.debounce_ms)) [
      | inl e3 ↦ rw (e, e2, e3) (waits (same_bool-eq p b.candidate_pressed e))
      | inr e3 ↦
          rw (e, e2, e3)
            (settles (same_bool-eq p b.candidate_pressed e) (same_bool-ne p b.stable_pressed e2)
              (ground arith))
    ]
  ]
]

settle-candidate :
    (b : DebouncedButton) (p : Bool)
    → ((settle b p).1.candidate_pressed ≡ b.candidate_pressed)
      × ((settle b p).1.candidate_since_ms ≡ b.candidate_since_ms)
      × ((settle b p).1.debounce_ms ≡ b.debounce_ms)
      × ((settle b p).1.stable_pressed ≡ p)
unfolding settle
settle-candidate b true = ground arith
settle-candidate b false = (refl, refl, refl, refl)

Outcome-Remembers :
    (b : DebouncedButton) (p : Bool) (t : ℕ) (h : List Sample)
    {o : Option DebouncedButtonEvent × DebouncedButton}
    → Outcome b p t o
    → Remembers b h
    → Remembers o.1 ((p, t) ∷ h)
Outcome-Remembers b p t h moved r = inl here
Outcome-Remembers b p t h (waits e) (inl s) = inl (rw e (later s))
Outcome-Remembers b p t h (waits e) (inr z) = inr z
Outcome-Remembers b p t h (settles e u d) (inl s) =
    let (c1, c2, _, _) = settle-candidate b p in rw (c1, c2, e) (inl (later s))
Outcome-Remembers b p t h (settles e u d) (inr z) = absurd (ground arith)

button_after-Remembers : (d : ℕ) (h : List Sample) → Remembers (button_after d h) h
unfolding button_after
button_after-Remembers d [] = inr (refl, refl)
button_after-Remembers d ((p, t) ∷ h) =
    Outcome-Remembers (button_after d h) p t h (update-Outcome (button_after d h) p t)
      (button_after-Remembers d h)

Outcome-debounce_ms :
    (b : DebouncedButton) (p : Bool) (t : ℕ) {o : Option DebouncedButtonEvent × DebouncedButton}
    → Outcome b p t o
    → o.1.debounce_ms ≡ b.debounce_ms
Outcome-debounce_ms b p t moved = refl
Outcome-debounce_ms b p t (waits e) = refl
Outcome-debounce_ms b p t (settles e u d) = (settle-candidate b p).2

button_after-debounce_ms : (d : ℕ) (h : List Sample) → (button_after d h).debounce_ms ≡ d
unfolding button_after
button_after-debounce_ms d [] = refl
button_after-debounce_ms d ((p, t) ∷ h) =
    Outcome-debounce_ms (button_after d h) p t (update-Outcome (button_after d h) p t)
    ∙ button_after-debounce_ms d h

-- The press is reported exactly while the button is stably down.
Outcome-reported :
    (b : DebouncedButton) (p : Bool) (t : ℕ) {o : Option DebouncedButtonEvent × DebouncedButton}
    → Outcome b p t o
    → b.press_reported ≡ b.stable_pressed
    → o.1.press_reported ≡ o.1.stable_pressed
unfolding settle
Outcome-reported b p t moved h = h
Outcome-reported b p t (waits e) h = h
Outcome-reported b true t (settles e u d) h = ground arith
Outcome-reported b false t (settles e u d) h = refl

pub button_after-reported :
    (d : ℕ) (h : List Sample)
    → (button_after d h).press_reported ≡ (button_after d h).stable_pressed
unfolding button_after
button_after-reported d [] = refl
button_after-reported d ((p, t) ∷ h) =
    Outcome-reported (button_after d h) p t (update-Outcome (button_after d h) p t)
      (button_after-reported d h)

settle-event :
    (b : DebouncedButton) (p : Bool) {e : DebouncedButtonEvent}
    → (settle b p).0 ≡ some e
    → p ≡ level e
unfolding settle
settle-event b true {e = pressed_event} k = refl
settle-event b true {e = released_event} k = absurd (ground arith)
settle-event b false {e = pressed_event} k = cc
settle-event b false {e = released_event} k = refl

Outcome-event :
    (b : DebouncedButton) (p : Bool) (t : ℕ) (h : List Sample)
    {o : Option DebouncedButtonEvent × DebouncedButton} {e : DebouncedButtonEvent}
    → Outcome b p t o
    → Remembers b h
    → o.0 ≡ some e
    → (p ≡ level e) × (since : ℕ) × SteadySince p since h × (b.debounce_ms ≤ t - since)
Outcome-event b p t h moved r k = cc
Outcome-event b p t h (waits _) r k = cc
Outcome-event b p t h (settles e u d) (inr z) k = absurd (ground arith)
Outcome-event b p t h (settles e u d) (inl s) k = (
  settle-event b p k,
  b.candidate_since_ms,
  subst (λ q. SteadySince q b.candidate_since_ms h) (sym e) s,
  d,
)

-- A debounced button reports an event only when the input has had the level of that event without a
-- break, from a sample at least the debounce time ago up to now, whatever was sampled before; the
-- age is the saturating difference of the times.
pub update_steady :
    (debounce_ms : ℕ) (h : List Sample) (p : Bool) (t : ℕ) {e : DebouncedButtonEvent}
    → (update (button_after debounce_ms h) p t).0 ≡ some e
    → (p ≡ level e) × (since : ℕ) × SteadySince p since h × (debounce_ms ≤ t - since)
update_steady debounce_ms h p t k =
    let b : DebouncedButton = button_after debounce_ms h in
    let (a, since, steady, d) =
      Outcome-event b p t h (update-Outcome b p t) (button_after-Remembers debounce_ms h) k in
    (a, since, steady, omega (arith, d, button_after-debounce_ms debounce_ms h))
