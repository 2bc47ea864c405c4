-- ===== src/Handlers/Http.antt =====
-- src/server/HttpRpcServer.cpp: the dispatch_command of a request, and its reply. Sockets are left
-- out: a request is its method, its path and its body.
use instrument_script_server.Base.{
  ℕ, String, false, Option, none, some, [], ◌∷◌, Dict, if◌then◌else◌, string_key, ◌==◌, ◌&&◌, ◌||◌,
  nat_eqb,
}
use instrument_script_server.Json.{Json, boolean, text, object, end}
use instrument_script_server.Json.Codec.{JsonText}
use instrument_script_server.Handlers.{
  Server, Host, HandlerOutcome, replied, thrown, thrown_in, ended, refuse, text_value, json_value,
  with_value,
}
use instrument_script_server.Handlers.Plugins.{handle_discover, handle_plugins, handle_daemon}
use instrument_script_server.Handlers.Jobs.{
  handle_submit_job, handle_submit_measure, handle_job_status, handle_job_result, handle_job_list,
  handle_job_cancel,
}
use instrument_script_server.Handlers.Instruments.{
  handle_status, handle_list, handle_stop, handle_start, handle_test, exception_reply,
}
use instrument_script_server.Handlers.Measure.{handle_measure}

pub record Response : Type 0 where
  pub status : ℕ
  pub body : Dict String Json

abbrev pub not_found : Response
not_found = record {
  status = 404;
  body = ("error", text "Only POST /rpc is supported") ∷ ("ok", boolean false) ∷ [];
}

-- The response to an exception; nothing catches the one of its own `dump`.
abbrev pub caught : Host → Server → Option (Response × Server)
caught host s =
    if host.dumps (exception_reply host).1
    then some (record { status = 500; body = (exception_reply host).1 }, s)
    else none

-- rc to the HTTP status; an exception of a handler, or of the `dump` of its reply, is caught. `none` is a process
-- that has ended.
abbrev pub respond : Host → Server → HandlerOutcome → Option (Response × Server)
respond host s (replied (rc, out) s') =
    if host.dumps out
    then some (record { status = if nat_eqb rc 0 then 200 else 500; body = out }, s')
    else caught host s'
respond host s thrown = caught host s
respond host s (thrown_in s') = caught host s'
respond host s ended = none

module _ (J : JsonText) (host : Host) where
  unfoldable pub dispatch_command : String → Json → Server → HandlerOutcome
  dispatch_command command params s =
      if command == "list"
      then handle_list s
      else if command == "status"
      then handle_status host params s
      else if command == "start"
      then handle_start J host params s
      else if command == "stop"
      then handle_stop params s
      else if command == "daemon"
      then handle_daemon host params s
      else if command == "measure"
      then handle_measure host params s
      else if command == "test"
      then handle_test J host params s
      else if command == "discover"
      then handle_discover host params s
      else if command == "plugins"
      then handle_plugins host s
      else if command == "submit_job"
      then handle_submit_job host params s
      else if command == "submit_measure"
      then handle_submit_measure host params s
      else if command == "job_status"
      then handle_job_status host params s
      else if command == "job_result"
      then handle_job_result params s
      else if command == "job_list"
      then handle_job_list host s
      else if command == "job_cancel"
      then handle_job_cancel params s
      else replied (refuse "unknown command") s

  abbrev pub handle_json : Option Json → Server → HandlerOutcome
  handle_json none s = thrown
  handle_json (some req) s = with_value (text_value "command" "" req) (λ command.
      with_value (json_value "params" (object end) req)
        (λ params. dispatch_command command params s))

  unfoldable pub handle_request : String → String → J.Text → Server → Option (Response × Server)
  handle_request method path body s =
      if method == "POST" && (path == "/rpc" || path == "/rpc/")
      then respond host s (handle_json (J.parse body) s)
      else some (not_found, s)
