-- ===== src/TargetControl/Recovery.antt =====
-- When the recovery button of src/target_control.rs asks for a factory reset.
use mathlib.Core.Path.{subst}
use hidshift.TargetControl.{BootRecoveryControl, factory_reset, new_recovery, sample, sample_by}
use hidshift.TargetControl.Debounce.{later, Sample, SteadySince, here}
use hidshift.Prelude.{
  Bool, Bool-cases, List, Option, [], arith, false, inl, inr, leb, none, refl, saturating_add64,
  some, true, ℕ, ◌-◌, ◌∷◌, ◌≡◌, ◌≤◌,
}

-- The control after these samples, the newest first.
unfoldable pub recovery_after : BootRecoveryControl → List Sample → BootRecoveryControl
unfolding sample
recovery_after c [] = c
recovery_after c ((p, t) ∷ h) = (sample (recovery_after c h) p t).1

-- A press that counts began before the arming window ended, and the button has been down since.
unfoldable Armed : BootRecoveryControl → Option ℕ → List Sample → Type 0
Armed c none h = Unit {0}
Armed c (some since) h = (since ≤ c.arm_until_ms) × SteadySince true since h

-- The settings never change, and what is remembered is such a press.
abbrev Inv : BootRecoveryControl → BootRecoveryControl → List Sample → Type 0
Inv c d h =
    (d.arm_until_ms ≡ c.arm_until_ms) × (d.hold_ms ≡ c.hold_ms) × Armed c d.pressed_since_ms h

sample_by-Inv :
    (c d : BootRecoveryControl) (since : Option ℕ) (p : Bool) (t : ℕ) (h : List Sample)
    → d.pressed_since_ms ≡ since
    → Inv c d h
    → Inv c (sample_by d since p t).1 ((p, t) ∷ h)
unfolding sample_by Armed
sample_by-Inv c d (some since) true t h e (a, b, i) =
    let (k, s) = subst (λ s. Armed c s h) e i in (a, b, rw e (k, later s))
sample_by-Inv c d (some since) false t h e (a, b, i) = (a, b, tt)
sample_by-Inv c d none true t h e (a, b, i) = elim (Bool-cases (leb t d.arm_until_ms)) [
  | inl k ↦ rw k (a, b, (ground arith, here))
  | inr k ↦ rw (k, e) (a, b, tt)
]
sample_by-Inv c d none false t h e (a, b, i) = rw e (a, b, tt)

recovery_after-Inv :
    (c : BootRecoveryControl) (h : List Sample)
    → c.pressed_since_ms ≡ none
    → Inv c (recovery_after c h) h
unfolding recovery_after sample Armed
recovery_after-Inv c [] e = rw e (refl, refl, tt)
recovery_after-Inv c ((p, t) ∷ h) e =
    sample_by-Inv c (recovery_after c h) _ p t h refl (recovery_after-Inv c h e)

reset_by :
    (c : BootRecoveryControl) (since : Option ℕ) (p : Bool) (t : ℕ)
    → (sample_by c since p t).0 ≡ factory_reset
    → (p ≡ false) × (s : ℕ) × (since ≡ some s) × (c.hold_ms ≤ t - s)
unfolding sample_by
reset_by c (some s) true t h = cc
reset_by c (some s) false t h = (refl, s, refl, ground arith)
reset_by c none true t h = absurd (ground arith)
reset_by c none false t h = cc

-- A control that starts at the time `now` with an arming window and a hold time asks for a factory
-- reset only when the button is released, after it has been down without a break since a sample that
-- is not later than the end of the window (the saturating sum), and for at least the hold time.
pub factory_reset-held :
    (now window hold : ℕ) (h : List Sample) (p : Bool) (t : ℕ)
    → (sample (recovery_after (new_recovery now window hold) h) p t).0 ≡ factory_reset
    → (p ≡ false)
      × (since : ℕ) × (since ≤ saturating_add64 now window)
      × SteadySince true since h
      × (hold ≤ t - since)
unfolding sample new_recovery Armed
factory_reset-held now window hold h p t k =
    let c : BootRecoveryControl = new_recovery now window hold in
    let d : BootRecoveryControl = recovery_after c h in
    let (released, since, e, old) = reset_by d d.pressed_since_ms p t k in
    let (_, same_hold, i) = recovery_after-Inv c h refl in
    let (early, steady) = subst (λ s. Armed c s h) e i in
    (released, since, early, steady, omega arith)
