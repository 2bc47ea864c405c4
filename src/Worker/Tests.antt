-- ===== src/Worker/Tests.antt =====
-- Runs of a worker whose plugin counts its calls.
use Prim.Native.String.{slice}
use instrument_script_server.Base.{
  ◌⊎◌, has, lookup, insert, place, replace, map_values, is_some, ◌<◌, string_key, ℕ, [], ◌∷◌, List,
  Option, some, none, true, ◌≡◌, ◌≢◌, refl, arith, pos,
}
use instrument_script_server.Ipc.{IpcMessage, command, fit_payload}
use instrument_script_server.Samples.{json_size}
use instrument_script_server.Json.Finite.{finite}
use instrument_script_server.Ipc.{ipc_max_payload}
use instrument_script_server.Wire.{
  deserialize_command, command_members, members_with, params_json, params_of, command_of,
  SerializedCommand, new_command, serialize_command, new_response,
}
use instrument_script_server.Worker.{
  loop_round, send_heartbeat_if_needed, handle_command, Worker, main_loop, process_message,
  run_command, barrier_nop,
}
use instrument_script_server.Worker.Abi.{from_plugin_response, zero_response, to_plugin_command}
use instrument_script_server.Worker.Barrier.{main_loop-never_waits}
use instrument_script_server.Worker.Replies.{
  main_loop-answers, oversized_command_ends_worker, run_command_cases, answers, requests,
}
use instrument_script_server.Samples.{values, counter}

abbrev new_worker : Worker values counter
new_worker = record {
  instrument_name = "DAC1";
  running = true;
  waiting_sync_token = none;
  last_heartbeat = 0;
  plugin = 0;
}

abbrev set_command : SerializedCommand
set_command = record new_command {
  id = "DAC1-1";
  verb = "SET";
  timeout = pos 1;
  sync_token = some 7;
  is_sync_barrier = true;
}

abbrev message_with : ℕ → SerializedCommand → IpcMessage values
message_with n cmd = record {
  type = command;
  id = n;
  sync_token = 0;
  payload = fit_payload values (serialize_command values cmd);
}

-- Two commands, a heartbeat between them.
abbrev rounds : List (ℕ × Option (IpcMessage values))
rounds =
    (10, some (message_with 1 set_command))
    ∷ (700, none)
    ∷ (710, some (message_with 2 set_command))
    ∷ []

abbrev ended :
    Option (Worker values counter × List (IpcMessage values))
    → Worker values counter × List (IpcMessage values)
ended none = (new_worker, [])
ended (some r) = r

abbrev last_state : Worker values counter × List (IpcMessage values)
last_state = ended (main_loop values counter new_worker rounds)

ended-some :
    (o : Option (Worker values counter × List (IpcMessage values)))
    → is_some o ≡ true
    → o ≡ some (ended o)
ended-some none h = cc
ended-some (some r) h = refl

ran : main_loop values counter new_worker rounds ≡ some last_state
unfolding main_loop loop_round process_message send_heartbeat_if_needed handle_command
    deserialize_command serialize_command command_members members_with insert has lookup place
    replace params_json params_of command_of finite map_values json_size
ran = ended-some (main_loop values counter new_worker rounds) refl

main_loop-never_waits_example : last_state.0.waiting_sync_token ≡ none
main_loop-never_waits_example =
    main_loop-never_waits values counter rounds new_worker refl last_state.0 last_state.1 ran

main_loop-answers_example : answers values last_state.1 ≡ requests values rounds
main_loop-answers_example =
    main_loop-answers values counter rounds new_worker refl refl ((λ h. cc), (tt, ((λ h. cc), tt)))
      last_state.0 last_state.1 ran

abbrev long_command : SerializedCommand
long_command = record set_command { timeout = pos 5000 }

long_command_size : ipc_max_payload < values.size (serialize_command values long_command)
unfolding serialize_command command_members members_with insert has lookup place replace params_json
    finite json_size
long_command_size = omega arith

oversized_command_ends_worker_example :
    process_message values counter new_worker (message_with 3 long_command) ≡ none
oversized_command_ends_worker_example =
    oversized_command_ends_worker values counter new_worker (message_with 3 long_command)
      long_command long_command_size refl refl refl

run_command_cases_example :
    ((set_command.verb ≡ barrier_nop)
      × ((run_command values counter 5 set_command).0 ≡ 5)
      × (from_plugin_response (run_command values counter 5 set_command).1 ≡ record new_response {
        command_id = slice set_command.id 0 127;
        instrument_name = slice set_command.instrument_name 0 127;
        success = true;
        text_response = "BARRIER_NOP";
      }))
    ⊎ ((set_command.verb ≢ barrier_nop)
        × (run_command values counter 5 set_command
            ≡ counter.execute_command 5 (to_plugin_command set_command) zero_response))
run_command_cases_example = run_command_cases values counter 5 set_command
