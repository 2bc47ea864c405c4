-- ===== src/Context/Tests.antt =====
-- A script with a call and a block for two instruments, and the release of its tokens.
use instrument_script_server.Base.{
  ℕ, ◌≡◌, refl, some, true, false, [], ◌∷◌, ◌++◌, List, lookup, length, map, member, All, Bool,
  nat_key, string_key, if◌then◌else◌, none, ◌<◌, arith, ◌==◌, Option, is_some,
}
use instrument_script_server.Json.{Json, text, object_of, null}
use instrument_script_server.Wire.{SerializedCommand, new_command, new_response}
use instrument_script_server.Sync.{no_barriers, has_barrier}
use instrument_script_server.Registry.{Registry, Launch, no_instruments}
use instrument_script_server.Registry.Invariant.{
  IsValid, Call, creates, apply_calls, apply_calls-no_instruments-IsValid,
}
use instrument_script_server.Context.{
  RuntimeContext, World, new_context, CallResult, Future, new_result, responds, get, silent, throws,
}
use instrument_script_server.Context.Calls.{listed, number}
use instrument_script_server.Context.Sends.{Sends, IsAligned}
use instrument_script_server.Context.Parallel.{
  Action, calls, nests, parallel, collect, run_actions, start_block,
}
use instrument_script_server.Context.Parallel.Script.{
  block_calls, buffered, ended, parallel-shares, parallel-throws, inside,
}
use instrument_script_server.Context.Parallel.Fallback.{IsNameless, collect-IsNameless}
use instrument_script_server.Context.Tokens.{process_tokens_and_wait}
use instrument_script_server.Context.Tokens.Answers.{header, Settles}
use instrument_script_server.Context.Tokens.Release.{
  release_calls, AllSettle, process_tokens-releases,
}
use instrument_script_server.Context.Tokens.Stuck.{process_tokens-hangs}
use instrument_script_server.Context.Script.{Statement, blocks, run_script, run_script-results}
use instrument_script_server.Samples.{values}

abbrev plain : Launch
plain = record {
  plugin_path = λ t. "plugins/visa.so";
  queue_made = true;
  spawned = true;
  alive = true;
}

abbrev visa_def : Json
visa_def = object_of (("protocol", object_of (("type", text "visa") ∷ [])) ∷ [])

abbrev creations : List (Call values)
creations =
    creates plain "DAC1" (some null) (some visa_def)
    ∷ creates plain "DMM1" (some null) (some visa_def)
    ∷ []

abbrev two_workers : Registry
two_workers = apply_calls values no_instruments creations

abbrev two_workers-IsValid : IsValid two_workers
two_workers-IsValid = apply_calls-no_instruments-IsValid values creations

abbrev world : World
world = record {
  sent = λ name id. true;
  answer = λ future. responds (record new_response { success = true; command_id = future.0 });
  moved_id = "";
  now = 42;
}

abbrev ramp : List Action
ramp =
    calls "DAC1:2.SET" (listed (number 7 ∷ []))
    ∷ nests
    ∷ calls "DAC1.GET" (listed [])
    ∷ calls "no_verb" (listed [])
    ∷ []

abbrev script : List Statement
script =
    Statement.calls "DMM1.READ" (listed [])
    ∷ blocks (record { actions = ramp; throws = false })
    ∷ []

abbrev fresh : RuntimeContext
fresh = new_context two_workers no_barriers true

abbrev set_dac : SerializedCommand
set_dac = record new_command { instrument_name = "DAC1"; verb = "SET" }

run_script-results_example :
    (threw : Bool) × (c : RuntimeContext) × (run_script values world script fresh ≡ some (threw, c))
    × IsValid c.registry
    × (length c.collected_results ≡ length c.calls)
    × (c' : RuntimeContext) × (process_tokens_and_wait world c ≡ some c')
    × (map header c'.collected_results ≡ map header c.collected_results)
unfolding Settles
run_script-results_example =
    run_script-results values world world script two_workers no_barriers two_workers-IsValid
      (λ future. refl)

parallel-shares_example :
    (c' : RuntimeContext) × (parallel values world (record { actions = ramp; throws = false }) fresh
      ≡ some (false, c'))
    × Sends fresh (block_calls fresh (buffered values.to_double two_workers ramp)) c'
parallel-shares_example = parallel-shares values world ramp fresh refl refl two_workers-IsValid

parallel-throws_example :
    (run_actions values world ramp (start_block fresh)
      ≡ some (inside fresh (buffered values.to_double two_workers ramp)))
    × (parallel values world (record { actions = ramp; throws = true }) fresh
        ≡ some (true, ended fresh []))
parallel-throws_example = parallel-throws values world ramp fresh refl

collect-IsNameless_example :
    (added : List CallResult) × (collect values world (("DAC1", 1) ∷ ("DMM1", 1) ∷ []) []
      ≡ some ([] ++ added))
    × All IsNameless added
unfolding Settles
collect-IsNameless_example =
    collect-IsNameless values world (("DAC1", 1) ∷ ("DMM1", 1) ∷ []) [] (refl, (refl, tt))

abbrev one_token : RuntimeContext
one_token = record fresh {
  token_order = 1 ∷ [];
  token_instruments = (1, "DAC1" ∷ []) ∷ [];
  token_futures = (1, ("DAC1", 1) ∷ []) ∷ [];
  token_result_indices = (1, 0 ∷ []) ∷ [];
  collected_results = record new_result { instrument_name = "DAC1"; verb = "GET" } ∷ [];
}

one_token-IsAligned : IsAligned one_token
unfolding lookup
one_token-IsAligned = record { paired = λ t. by_test (1 == t); in_range = λ t. in_test (1 == t) }
  where
    by_test :
        (b : Bool)
        → length
            (elim (if◌then◌else◌ {A = Option (List Future)} b (some (("DAC1", 1) ∷ [])) none)
              as (λ o. List Future) [ none ↦ [] | some xs ↦ xs ])
          ≡ length
              (elim (if◌then◌else◌ {A = Option (List ℕ)} b (some (0 ∷ [])) none) as (λ o. List ℕ) [
                | none ↦ []
                | some xs ↦ xs
              ])
    by_test true = refl
    by_test false = refl

    in_test :
        (b : Bool)
        → All
            (λ i. i < 1)
            (elim (if◌then◌else◌ {A = Option (List ℕ)} b (some (0 ∷ [])) none) as (λ o. List ℕ) [
              | none ↦ []
              | some xs ↦ xs
            ])
    in_test true = (omega arith, tt)
    in_test false = tt

one_token-AllSettle : AllSettle world one_token
unfolding AllSettle Settles lookup
one_token-AllSettle t = by_test (1 == t)
  where
    by_test :
        (b : Bool)
        → All
            (λ f. is_some (get (world.answer f)) ≡ true)
            (elim (if◌then◌else◌ {A = Option (List Future)} b (some (("DAC1", 1) ∷ [])) none)
              as (λ o. List Future) [ none ↦ [] | some xs ↦ xs ])
    by_test true = (refl, tt)
    by_test false = tt

process_tokens-releases_example :
    (c' : RuntimeContext) × (process_tokens_and_wait world one_token ≡ some c')
    × (map header c'.collected_results ≡ map header one_token.collected_results)
    × (c'.calls ≡ one_token.calls ++ release_calls one_token.token_instruments two_workers (1 ∷ []))
    × ((t : ℕ) → member t (1 ∷ []) ≡ true → has_barrier t c'.sync_coordinator ≡ false)
    × (c'.token_order ≡ [])
    × (c'.token_futures ≡ [])
process_tokens-releases_example =
    process_tokens-releases world one_token one_token-IsAligned one_token-AllSettle

-- A world in which the worker of DMM1 never answers.
abbrev quiet_world : World
quiet_world = record world { answer = λ future. if future.0 == "DMM1" then silent else throws }

abbrev two_tokens : RuntimeContext
two_tokens = record fresh {
  token_order = 1 ∷ 2 ∷ [];
  token_futures = (1, ("DAC1", 1) ∷ []) ∷ (2, ("DAC1", 2) ∷ ("DMM1", 1) ∷ []) ∷ [];
  token_result_indices = (1, 0 ∷ []) ∷ (2, 1 ∷ 2 ∷ []) ∷ [];
  collected_results = new_result ∷ new_result ∷ new_result ∷ [];
}

process_tokens-hangs_example : process_tokens_and_wait quiet_world two_tokens ≡ none
unfolding lookup
process_tokens-hangs_example =
    process_tokens-hangs quiet_world two_tokens (1 ∷ []) [] 2 (("DAC1", 2) ∷ []) [] ("DMM1", 1) refl
      refl refl
