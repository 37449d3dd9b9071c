-- ===== src/Interchip/Recovery/Tests.antt =====
-- Runs as in the unit tests of src/interchip/recovery.rs.
use hidshift.Interchip.Recovery.Quiet.{
  Only, advances, new_recovery-Only, observe, quiet_period, run, sees_cell, step, timed_out_lem,
  transacts, valid_cell,
}
use hidshift.Prelude.{[], arith, refl, true, ◌∷◌, ◌≡◌}
use hidshift.Interchip.Recovery.{
  SpiLinkRecovery, advance, enter_quiet, new_recovery, new_watchdog, poll, polling, resume_polling,
  stay_quiet, timed_out,
}

abbrev idle_link : SpiLinkRecovery
idle_link = record { phase = polling 100; progress_timeout_ms = 1500; quiet_period_ms = 2000 }

recovers_in_turn :
    (run
      (new_recovery 100 1500 2000)
      (advances 1599 ∷ advances 1600 ∷ advances 3599 ∷ advances 3600 ∷ [])).0
    ≡ poll ∷ enter_quiet ∷ stay_quiet ∷ resume_polling ∷ []
unfolding run step advance new_recovery
recovers_in_turn = refl

quiet_period_example :
    let (actions, last) =
      run (advance idle_link 1600).1 (advances 2000 ∷ sees_cell 2500 ∷ advances 3599 ∷ []) in
    Only stay_quiet actions
    × (advance last 3600 ≡ (resume_polling, record idle_link { phase = polling 3600 }))
unfolding advance
quiet_period_example =
    quiet_period idle_link 1600 3600 (advances 2000 ∷ sees_cell 2500 ∷ advances 3599 ∷ []) refl
      (omega arith) (omega arith)

new_recovery-Only_example :
    Only poll (run (new_recovery 0 1500 2000) (sees_cell 1400 ∷ advances 2899 ∷ [])).0
new_recovery-Only_example =
    new_recovery-Only 0 1500 2000 (sees_cell 1400 ∷ advances 2899 ∷ []) (omega arith)

timed_out_lem_example :
    timed_out (observe (new_watchdog 1500) (transacts 100 ∷ valid_cell 1500 ∷ [])) 3000 ≡ true
timed_out_lem_example = timed_out_lem 1500 3000 (transacts 100 ∷ valid_cell 1500 ∷ [])
