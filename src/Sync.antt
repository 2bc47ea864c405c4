-- ===== src/Sync.antt =====
-- src/server/SyncCoordinator.cpp: the barriers of parallel blocks. The mutex makes each method one
-- step; a method returns its result and the new coordinator. The time of creation is never read.
pub mod Refinement
pub mod Reachable
pub mod Rounds
mod Tests
use instrument_script_server.Base.{
  ℕ, String, Bool, true, false, Option, none, some, List, [], ◌∷◌, Dict, lookup, has, insert, erase,
  member, add, of_list, minus, same_set, if◌then◌else◌, length, nat_key, string_key,
}

pub record SyncBarrier : Type 0 where
  pub expected_instruments : List String
  pub acked_instruments : List String

pub record SyncCoordinator : Type 0 where
  pub barriers : Dict ℕ SyncBarrier

abbrev pub no_barriers : SyncCoordinator
no_barriers = record { barriers = [] }

unfoldable pub register_barrier : ℕ → List String → SyncCoordinator → SyncCoordinator
register_barrier sync_token instruments c =
    let barrier : SyncBarrier = record {
      expected_instruments = of_list instruments;
      acked_instruments = [];
    } in
    record c { barriers = insert sync_token barrier c.barriers }

-- The part of `handle_ack` behind the check that the instrument is expected.
unfoldable pub record_ack : ℕ → String → SyncBarrier → SyncCoordinator → Bool × SyncCoordinator
record_ack sync_token instrument_name barrier c =
    let acked = add instrument_name barrier.acked_instruments in
    let barrier' = record barrier { acked_instruments = acked } in
    if same_set acked barrier.expected_instruments
    then (true, record c { barriers = erase sync_token c.barriers })
    else (false, record c { barriers = insert sync_token barrier' c.barriers })

unfoldable pub handle_ack : ℕ → String → SyncCoordinator → Bool × SyncCoordinator
unfolding record_ack
handle_ack sync_token instrument_name c = elim (lookup sync_token c.barriers) [
  | none ↦ (false, c)
  | some barrier ↦
      if member instrument_name barrier.expected_instruments
      then record_ack sync_token instrument_name barrier c
      else (false, c)
]

unfoldable pub get_waiting_instruments : ℕ → SyncCoordinator → List String
get_waiting_instruments sync_token c = elim (lookup sync_token c.barriers) [
  | none ↦ []
  | some barrier ↦ minus barrier.expected_instruments barrier.acked_instruments
]

unfoldable pub has_barrier : ℕ → SyncCoordinator → Bool
has_barrier sync_token c = has sync_token c.barriers

unfoldable pub clear_barrier : ℕ → SyncCoordinator → SyncCoordinator
clear_barrier sync_token c = record c { barriers = erase sync_token c.barriers }

unfoldable pub active_barrier_count : SyncCoordinator → ℕ
active_barrier_count c = length c.barriers
