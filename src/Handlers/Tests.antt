-- ===== src/Handlers/Tests.antt =====
-- Requests to a server without instruments.
use instrument_script_server.Base.{
  ◌≡◌, ◌↔◌, ◌≤◌, ◌+◌, refl, some, none, true, false, [], ◌∷◌, Option, lookup, pos, arith, nat_eqb,
  string_key, List, length,
}
use instrument_script_server.Json.{Json, text, boolean, object_of, null}
use instrument_script_server.Registry.{no_instruments, Launch}
use instrument_script_server.JobManager.{new_manager}
use instrument_script_server.Plugins.{no_plugins}
use instrument_script_server.Handlers.{Server, Host}
use instrument_script_server.Handlers.Http.{Response, handle_request}
use instrument_script_server.Handlers.Requests.{handle_request-ok}
use instrument_script_server.Handlers.Service.{handle_request-IsValid}
use instrument_script_server.Registry.Invariant.{
  IsValid, creates, apply_calls, apply_calls-no_instruments-IsValid,
}
use instrument_script_server.Samples.{values}
use instrument_script_server.Context.{silent}
use instrument_script_server.Handlers.Instruments.{exception_reply}

abbrev host : Host
host = record {
  disk = record { load = λ path. none; exists = λ path. false; entries = λ path. none };
  queue_made = true;
  spawned = true;
  worker_alive = true;
  load_config = λ path. none;
  load_api = λ path api. none;
  is_alive = λ name. true;
  daemon_starts = true;
  daemon_runs = true;
  daemon_here = true;
  daemon_pid = pos 42;
  script = λ path r. (none, [], r);
  world = record { sent = λ name id. true; answer = λ future. silent; moved_id = ""; now = 0 };
  now_ms = 7;
  job_time = λ id which. pos 7;
  dump_text = λ j. "{}";
  dumps = λ m. true;
  decimal_text = λ z. "42";
  file_name = λ path. path;
  what = "error";
}

abbrev server : Server
server = record {
  registry = no_instruments;
  jobs = new_manager;
  plugins = no_plugins;
  discovered = false;
  builtins_loaded = false;
}

abbrev cancel_request : Option Json
cancel_request = some (
    object_of
      (("command", text "job_cancel") ∷ ("params", object_of (("job_id", text "job-1") ∷ [])) ∷ []))

abbrev cancel_response : Response
cancel_response = record {
  status = 500;
  body =
      ("error", text "failed to cancel job (maybe already finished)") ∷ ("ok", boolean false) ∷ [];
}

cancel_run :
    handle_request values host "POST" "/rpc" cancel_request server ≡ some (cancel_response, server)
unfolding handle_request instrument_script_server.Handlers.text_value lookup
    instrument_script_server.Handlers.json_value
    instrument_script_server.Handlers.Http.dispatch_command
    instrument_script_server.Handlers.Jobs.handle_job_cancel
    instrument_script_server.JobManager.cancel_job
cancel_run = refl

handle_request-ok_example :
    lookup "ok" cancel_response.body ≡ some (boolean (nat_eqb cancel_response.status 200))
handle_request-ok_example =
    handle_request-ok values host "POST" "/rpc" cancel_request server server cancel_response
      cancel_run

abbrev stop_request : Option Json
stop_request = some (
    object_of
      (("command", text "daemon") ∷ ("params", object_of (("action", text "stop") ∷ [])) ∷ []))

abbrev stop_response : Response
stop_response = record { status = 500; body = (exception_reply host).1 }

abbrev plain : Launch
plain = record {
  plugin_path = λ t. "plugins/visa.so";
  queue_made = true;
  spawned = true;
  alive = true;
}

abbrev visa_def : Json
visa_def = object_of (("protocol", object_of (("type", text "visa") ∷ [])) ∷ [])

-- A server with one instrument.
abbrev busy : Server
busy = record server {
  registry =
      apply_calls values no_instruments (creates plain "DAC1" (some null) (some visa_def) ∷ []);
}

stop_run : handle_request values host "POST" "/rpc" stop_request busy ≡ some (stop_response, server)
unfolding handle_request instrument_script_server.Handlers.text_value lookup
    instrument_script_server.Handlers.bool_value instrument_script_server.Handlers.json_value
    instrument_script_server.Handlers.Http.dispatch_command
    instrument_script_server.Handlers.Plugins.handle_daemon
    instrument_script_server.Registry.stop_all
    instrument_script_server.Registry.create_instrument_from_json instrument_script_server.Base.has
    instrument_script_server.Proxy.start instrument_script_server.Registry.store_metadata
stop_run = refl

handle_request-IsValid_example : IsValid server.registry
handle_request-IsValid_example =
    handle_request-IsValid values host "POST" "/rpc" stop_request busy server stop_response
      (λ path r v. v)
      (apply_calls-no_instruments-IsValid values
        (creates plain "DAC1" (some null) (some visa_def) ∷ []))
      stop_run
