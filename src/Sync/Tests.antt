-- ===== src/Sync/Tests.antt =====
-- Runs of the barrier coordinator.
use instrument_script_server.Base.{[], ◌∷◌, false, ◌≡◌, string_key, nat_key, member, subset}
use instrument_script_server.Sync.{
  SyncCoordinator, no_barriers, register_barrier, handle_ack, has_barrier,
}
use instrument_script_server.Sync.Refinement.{IsValid, handle_ack-Refines, after_ack, view}
use instrument_script_server.Sync.Reachable.{
  run-no_barriers-IsValid, no_barriers-IsValid, register_barrier-IsValid, run, registers, acks,
}
use instrument_script_server.Sync.Rounds.{round_exact, acks as all_acks}

abbrev two_expected : SyncCoordinator
two_expected = register_barrier 7 ("DAC1" ∷ "DMM1" ∷ []) no_barriers

abbrev two_expected-IsValid : IsValid two_expected
two_expected-IsValid =
    register_barrier-IsValid 7 ("DAC1" ∷ "DMM1" ∷ []) no_barriers no_barriers-IsValid

handle_ack-Refines_example :
    ((handle_ack 7 "DAC1" two_expected).0 ≡ (after_ack "DAC1" (view 7 two_expected)).0)
    × (view 7 (handle_ack 7 "DAC1" two_expected).1 ≡ (after_ack "DAC1" (view 7 two_expected)).1)
handle_ack-Refines_example = handle_ack-Refines 7 "DAC1" two_expected two_expected-IsValid

round_exact_example :
    ((all_acks 7 ("DMM1" ∷ "OTHER" ∷ "DAC1" ∷ "DMM1" ∷ []) two_expected).0 ≡ 1)
    × (has_barrier 7 (all_acks 7 ("DMM1" ∷ "OTHER" ∷ "DAC1" ∷ "DMM1" ∷ []) two_expected).1 ≡ false)
unfolding member subset
round_exact_example =
    round_exact 7 "DAC1" ("DMM1" ∷ []) ("DMM1" ∷ "OTHER" ∷ "DAC1" ∷ "DMM1" ∷ []) no_barriers
      no_barriers-IsValid

run-no_barriers-IsValid_example :
    IsValid (run (registers 1 ("DAC1" ∷ []) ∷ acks 1 "DAC1" ∷ acks 1 "DAC1" ∷ []) no_barriers)
run-no_barriers-IsValid_example =
    run-no_barriers-IsValid (registers 1 ("DAC1" ∷ []) ∷ acks 1 "DAC1" ∷ acks 1 "DAC1" ∷ [])
