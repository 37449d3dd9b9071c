-- ===== src/MouseAccumulator/Conserve.antt =====
-- What goes into an accumulator of src/mouse_accumulator.rs comes out of it.
use mathlib.Core.Path.{subst}
use hidshift.MouseAccumulator.{
  coalesced, add_movement, take_axis_i16, take_axis_i8, MouseAccumulatorStats, MouseMovement,
  MouseReport, PendingMouseState, clamp, idle, push_state, saturating_add, take_axis, take_state,
}
use hidshift.Prelude.{
  Bool, false, refl, true, ◌⊎◌, Bool-cases, inl, inr, not, ◌&&◌, ◌==◌, List, Option, [], ap, arith,
  none, some, sym, ℕ, ◌∙◌, ◌∷◌, ◌≡◌,
}
use hidshift.Prelude.Int.{negsuc, +ℤ_assoc, pos, ℤ, ◌+ℤ◌, ◌-ℤ◌}

-- What a host sees: reports offered and reports taken.
pub data Op : Type 0 where
  offered : MouseReport → Op
  taking : Op

-- The state of one host, with the sums of the movements accepted and of those taken.
pub record Run : Type 0 where
  pub state : PendingMouseState
  pub stats : MouseAccumulatorStats
  pub accepted : MouseMovement
  pub taken : MouseMovement

abbrev sum : MouseMovement → MouseMovement → MouseMovement
sum a b = record {
  x = a.x +ℤ b.x;
  y = a.y +ℤ b.y;
  wheel = a.wheel +ℤ b.wheel;
  pan = a.pan +ℤ b.pan;
}

abbrev nothing : MouseMovement
nothing = record { x = pos 0; y = pos 0; wheel = pos 0; pan = pos 0 }

unfoldable pub fresh : Run
unfolding idle
fresh = record {
  state = idle;
  stats = record { reports_coalesced = 0; movement_saturated = 0 };
  accepted = nothing;
  taken = nothing;
}

after_push : Run → MouseReport → Option (PendingMouseState × MouseAccumulatorStats) → Run
after_push r report none = r
after_push r report (some (s, stats)) = record r {
  state = s;
  stats = stats;
  accepted = sum r.accepted report.movement;
}

after_take : Run → Option MouseReport × PendingMouseState → Run
after_take r (none, s) = record r { state = s }
after_take r (some report, s) = record r { state = s; taken = sum r.taken report.movement }

unfoldable pub step : Run → Op → Run
unfolding push_state take_state after_push after_take
step r (offered report) = after_push r report (push_state r.state report r.stats)
step r taking = after_take r (take_state r.state)

unfoldable pub run : Run → List Op → Run
unfolding step
run r [] = r
run r (op ∷ ops) = run (step r op) ops

-- Along every axis, what was accepted is what was taken and what still waits.
abbrev pub Balanced : Run → Type 0
Balanced r =
    (r.accepted.x ≡ r.taken.x +ℤ r.state.x)
    × (r.accepted.y ≡ r.taken.y +ℤ r.state.y)
    × (r.accepted.wheel ≡ r.taken.wheel +ℤ r.state.wheel)
    × (r.accepted.pan ≡ r.taken.pan +ℤ r.state.pan)

take_axis-sum : (low high v : ℤ) → (take_axis low high v).0 +ℤ (take_axis low high v).1 ≡ v
unfolding take_axis ◌+ℤ◌ ◌-ℤ◌ clamp
take_axis-sum low high v = ground arith

balance_take :
    (low high p t v : ℤ)
    → p ≡ t +ℤ v
    → p ≡ t +ℤ (take_axis low high v).0 +ℤ (take_axis low high v).1
balance_take low high p t v h =
    h ∙ ap (λ w. t +ℤ w) (sym (take_axis-sum low high v)) ∙ sym (+ℤ_assoc t _ _)

saturating_add-exact :
    (c d : ℤ) (n : ℕ) → (saturating_add c d n).1 ≡ 0 → ((saturating_add c d n).0 ≡ c +ℤ d) × (n ≡ 0)
unfolding saturating_add
saturating_add-exact c d n h = ground arith

balance_push : (p t c d : ℤ) → p ≡ t +ℤ c → p +ℤ d ≡ t +ℤ (c +ℤ d)
balance_push p t c d h = ap (λ w. w +ℤ d) h ∙ +ℤ_assoc t c d

-- The state is the sum, and no count of saturations was added, when none is counted after.
add_movement-exact :
    (s : PendingMouseState) (m : MouseMovement) (stats : MouseAccumulatorStats)
    → (add_movement s m stats).1.movement_saturated ≡ 0
    → let s2 : PendingMouseState = (add_movement s m stats).0 in
      (s2.x ≡ s.x +ℤ m.x)
      × (s2.y ≡ s.y +ℤ m.y)
      × (s2.wheel ≡ s.wheel +ℤ m.wheel)
      × (s2.pan ≡ s.pan +ℤ m.pan)
      × (stats.movement_saturated ≡ 0)
unfolding add_movement
add_movement-exact s m stats h =
    let n1 : ℕ = (saturating_add s.x m.x stats.movement_saturated).1 in
    let n2 : ℕ = (saturating_add s.y m.y n1).1 in
    let n3 : ℕ = (saturating_add s.wheel m.wheel n2).1 in
    let (e4, z3) = saturating_add-exact s.pan m.pan n3 h in
    let (e3, z2) = saturating_add-exact s.wheel m.wheel n2 z3 in
    let (e2, z1) = saturating_add-exact s.y m.y n1 z2 in
    let (e1, z) = saturating_add-exact s.x m.x stats.movement_saturated z1 in (e1, e2, e3, e4, z)

-- What is to be shown of the answer of `push_state`.
abbrev Exact : Run → MouseReport → Option (PendingMouseState × MouseAccumulatorStats) → Type 0
Exact r report o =
    (after_push r report o).stats.movement_saturated ≡ 0
    → (r.stats.movement_saturated ≡ 0) × (Balanced r → Balanced (after_push r report o))

coalesced_saturated :
    (pending : Bool) (stats : MouseAccumulatorStats)
    → (coalesced pending stats).movement_saturated ≡ stats.movement_saturated
coalesced_saturated true stats = refl
coalesced_saturated false stats = refl

accepted-Exact :
    (r : Run) (report : MouseReport)
    → Exact r report (
        some (
          add_movement
            (record r.state { buttons = report.buttons })
            report.movement
            (coalesced r.state.pending r.stats)))
unfolding after_push
accepted-Exact r report h =
    let (e1, e2, e3, e4, z) =
      add_movement-exact (record r.state { buttons = report.buttons }) report.movement
        (coalesced r.state.pending r.stats) h in
    (
      sym (coalesced_saturated r.state.pending r.stats) ∙ z,
      λ (b1, b2, b3, b4). (
        rw e1 (balance_push r.accepted.x r.taken.x r.state.x report.movement.x b1),
        rw e2 (balance_push r.accepted.y r.taken.y r.state.y report.movement.y b2),
        rw e3 (balance_push r.accepted.wheel r.taken.wheel r.state.wheel report.movement.wheel b3),
        rw e4 (balance_push r.accepted.pan r.taken.pan r.state.pan report.movement.pan b4),
      ),
    )

push_state-cases :
    (s : PendingMouseState) (report : MouseReport) (stats : MouseAccumulatorStats)
    → (push_state s report stats ≡ none)
      ⊎ (push_state s report stats
          ≡ some (
              add_movement
                (record s { buttons = report.buttons })
                report.movement
                (coalesced s.pending stats)))
unfolding push_state
push_state-cases s report stats =
    elim (Bool-cases (not (report.buttons == s.buttons) && s.pending)) [
      | inl e ↦ inl (rw e)
      | inr e ↦ inr (rw e)
    ]

push-Exact : (r : Run) (report : MouseReport) → Exact r report (push_state r.state report r.stats)
unfolding after_push
push-Exact r report = elim (push_state-cases r.state report r.stats) [
  | inl e ↦ subst (Exact r report) (sym e) (λ h. (h, λ b. b))
  | inr e ↦ subst (Exact r report) (sym e) (accepted-Exact r report)
]

take-Balanced : (r : Run) → Balanced r → Balanced (step r taking)
unfolding step take_state after_take take_axis_i16 take_axis_i8
take-Balanced r (b1, b2, b3, b4) = elim (Bool-cases r.state.pending) [
  | inl e ↦ rw e (
    balance_take (negsuc 32767) (pos 32767) r.accepted.x r.taken.x r.state.x b1,
    balance_take (negsuc 32767) (pos 32767) r.accepted.y r.taken.y r.state.y b2,
    balance_take (negsuc 127) (pos 127) r.accepted.wheel r.taken.wheel r.state.wheel b3,
    balance_take (negsuc 127) (pos 127) r.accepted.pan r.taken.pan r.state.pan b4,
  )
  | inr e ↦ rw e (b1, b2, b3, b4)
]

take-stats : (r : Run) → (step r taking).stats ≡ r.stats
unfolding step take_state after_take
take-stats r = ground arith

run-Balanced_from :
    (r : Run) (ops : List Op)
    → (run r ops).stats.movement_saturated ≡ 0
    → (r.stats.movement_saturated ≡ 0) × (Balanced r → Balanced (run r ops))
unfolding run
run-Balanced_from r [] h = (h, λ b. b)
run-Balanced_from r (offered report ∷ ops) h =
    let (z, rest) = run-Balanced_from (step r (offered report)) ops h in
    let (z2, now) = push-Exact r report z in (z2, λ b. rest (now b))
run-Balanced_from r (taking ∷ ops) h =
    let (z, rest) = run-Balanced_from (step r taking) ops h in
    (ap (λ s. s.movement_saturated) (sym (take-stats r)) ∙ z, λ b. rest (take-Balanced r b))

-- No movement is lost or invented: after any reports offered to a host and taken from it, as long as
-- no sum was saturated, along each of the four axes the movements of the accepted reports add up to
-- the movements of the reports taken and what still waits.
pub run-Balanced :
    (ops : List Op) → (run fresh ops).stats.movement_saturated ≡ 0 → Balanced (run fresh ops)
unfolding fresh ◌+ℤ◌
run-Balanced ops h = (run-Balanced_from fresh ops h).1 (ground arith)
