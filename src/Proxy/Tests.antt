-- ===== src/Proxy/Tests.antt =====
-- Runs of a proxy, and one command's way to the worker and back.
use instrument_script_server.Wire.Params.{keep}
use instrument_script_server.Wire.Responses.{without_stale_buffer}
use instrument_script_server.Worker.Abi.{from_plugin_response, to_plugin_command}
use instrument_script_server.Proxy.RoundTrip.{
  Carried, plugin_answer, execute-fulfilled, arrived, seen,
}
use instrument_script_server.Worker.{Worker, run_command, process_message}
use instrument_script_server.Proxy.Futures.{
  run-keeps_answers, run-new_proxy-IsValid, stop-answers_all,
}
use instrument_script_server.Proxy.Invariant.{answered, IsValid}
use instrument_script_server.Base.{
  take, erase, has, lookup, insert, place, replace, map_values, is_some, string_key, nat_key, ℕ, [],
  ◌∷◌, List, Option, some, none, true, false, ◌≡◌, refl, pos, Dict, length, String, ◌+◌, arith, ◌<◌,
  ◌≤◌, if◌then◌else◌, ◌^◌, ◌>>=◌, map,
}
use instrument_script_server.Ipc.{IpcMessage, response, ipc_max_payload}
use instrument_script_server.Wire.{
  serialize_command, response_members, response_with, response_of, value_of, SerializedCommand,
  CommandResponse, new_command, new_response, serialize_response, deserialize_response, ParamValue,
  command_members, members_with, params_json, deserialize_command,
}
use instrument_script_server.Json.Finite.{finite}
use instrument_script_server.Proxy.{
  step, start, count_sent, open_request, resolve, count_done, Proxy, new_proxy, run, Event, starts,
  opens, sends, responds, execute, handle_response_message, stops, stop, error_response, command_id,
  end_send, fail_request,
}
use instrument_script_server.Samples.{values, counter, json_size}

abbrev set_command : SerializedCommand
set_command = record new_command { verb = "SET"; timeout = pos 1 }

abbrev ok_response : CommandResponse
ok_response = record new_response { command_id = "DAC1-1"; success = true }

abbrev answer_to : ℕ → IpcMessage values
answer_to n = record {
  type = response;
  id = n;
  sync_token = 0;
  payload = serialize_response values ok_response;
}

-- Three commands, one of which does not get into the queue, and an answer to the first, twice.
abbrev history : List (Event values)
history =
    starts true true true
    ∷ opens
    ∷ sends true 1
    ∷ opens
    ∷ sends false 2
    ∷ opens
    ∷ responds (answer_to 1)
    ∷ sends true 3
    ∷ responds (answer_to 1)
    ∷ []

abbrev ended : Option Proxy → Proxy
ended none = new_proxy ""
ended (some p) = p

ended-some : (o : Option Proxy) → is_some o ≡ true → o ≡ some (ended o)
ended-some none h = cc
ended-some (some r) h = refl

abbrev later_proxy : Proxy
later_proxy = ended (run values (new_proxy "DAC1") history)

ran : run values (new_proxy "DAC1") history ≡ some later_proxy
unfolding run step end_send fail_request start count_sent open_request resolve
    handle_response_message count_done deserialize_response serialize_response response_members
    response_with response_of value_of finite map_values insert has lookup place replace erase
ran = ended-some (run values (new_proxy "DAC1") history) refl

few_events : length history + 1 < 2 ^ 64
few_events = omega arith

run-new_proxy-IsValid_example : IsValid later_proxy
run-new_proxy-IsValid_example =
    run-new_proxy-IsValid values "DAC1" history later_proxy few_events ran

stop-answers_all_example :
    (answered 3 (stop later_proxy) ≡ true)
    × (lookup 3 (stop later_proxy).resolved ≡ (
        if has 3 later_proxy.pending
        then some (error_response "" later_proxy.instrument_name "Worker stopped")
        else lookup 3 later_proxy.resolved))
unfolding run step end_send fail_request start count_sent open_request resolve
    handle_response_message count_done deserialize_response serialize_response response_members
    response_with response_of value_of finite map_values insert has lookup place replace erase
stop-answers_all_example =
    stop-answers_all values "DAC1" history later_proxy 3 few_events ran refl refl

abbrev stopped_proxy : Proxy
stopped_proxy = ended (run values later_proxy (stops ∷ []))

stopped : run values later_proxy (stops ∷ []) ≡ some stopped_proxy
unfolding run step
stopped = refl

run-keeps_answers_example : lookup 1 stopped_proxy.resolved ≡ some ok_response
unfolding run step end_send fail_request start count_sent open_request resolve
    handle_response_message count_done deserialize_response serialize_response response_members
    response_with response_of value_of finite map_values insert has lookup place replace erase
run-keeps_answers_example =
    run-keeps_answers values "DAC1" history (stops ∷ []) later_proxy stopped_proxy 1 ok_response
      few_events (omega arith) ran stopped refl

abbrev open_proxy : Proxy
open_proxy = record (new_proxy "DAC1") { running = true; queue_open = true }

abbrev new_worker : Worker values counter
new_worker = record {
  instrument_name = "DAC1";
  running = true;
  waiting_sync_token = none;
  last_heartbeat = 0;
  plugin = 0;
}

carried :
    (ps : Dict String ParamValue)
    → deserialize_command values
        (serialize_command values (record set_command { id = command_id open_proxy }))
      ≡ some (arrived values counter open_proxy set_command ps)
    → Carried values counter (plugin_answer values counter open_proxy new_worker set_command ps)
unfolding from_plugin_response run_command to_plugin_command serialize_response response_members
    response_with finite json_size insert has lookup place replace
carried ps read = record { value = tt; count = omega arith; size = omega arith }

small :
    values.size (serialize_command values (record set_command { id = command_id open_proxy }))
    ≤ ipc_max_payload
unfolding serialize_command command_members members_with params_json finite json_size insert has
    lookup place replace
small = omega arith

abbrev answer_with : Dict String ParamValue → CommandResponse
answer_with ps =
    without_stale_buffer (plugin_answer values counter open_proxy new_worker set_command ps)

execute-fulfilled_example :
    (ps : Dict String ParamValue) × (msg : IpcMessage values) × (p1 : Proxy) × (w1 : Worker values
      counter)
    × (reply : IpcMessage values) × (rest : List (IpcMessage values)) × (p2 : Proxy) × ((j : String)
        → lookup j ps ≡ (lookup j set_command.params >>= keep))
    × ((to_plugin_command (arrived values counter open_proxy set_command ps)).params
        ≡ map (seen values counter) (take 16 ps))
    × (execute values true open_proxy set_command ≡ some (msg, p1))
    × (process_message values counter new_worker msg ≡ some (w1, reply ∷ rest))
    × (handle_response_message values p1 reply ≡ some p2)
    × (lookup 1 p2.resolved ≡ some (answer_with ps))
execute-fulfilled_example =
    execute-fulfilled values counter open_proxy new_worker set_command refl refl tt tt tt small
      carried
