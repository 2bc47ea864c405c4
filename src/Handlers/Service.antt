-- ===== src/Handlers/Service.antt =====
-- src/server/HttpRpcServer.cpp and src/server/CommandHandlers.cpp: the registry behind any request.
use instrument_script_server.Base.{
  String, Bool, true, false, Option, none, some, if◌then◌else◌, is_empty, string_key, ◌==◌, ◌≡◌,
  ◌||◌, ◌&&◌, lookup, nat_eqb, subst,
}
use instrument_script_server.Json.{Json, object, end, members}
use instrument_script_server.Json.Codec.{JsonText}
use instrument_script_server.Registry.{Registry, list_instruments}
use instrument_script_server.Registry.Invariant.{IsValid, stop_all-IsValid}
use instrument_script_server.JobManager.{submit_measure}
use instrument_script_server.Handlers.{
  Server, Host, HandlerOutcome, replied, thrown, thrown_in, ended, text_value, bool_value,
  json_value,
}
use instrument_script_server.Handlers.Plugins.{
  handle_discover, handle_plugins, handle_daemon, paths_in, discovered_by,
}
use instrument_script_server.Handlers.Jobs.{
  handle_submit_job, handle_submit_measure, handle_job_status, handle_job_result, handle_job_list,
  handle_job_cancel,
}
use instrument_script_server.Handlers.Instruments.{
  handle_status, handle_list, handle_stop, handle_start, handle_test, create_from, exception_reply,
}
use instrument_script_server.Handlers.Measure.{handle_measure}
use instrument_script_server.Handlers.Http.{
  Response, respond, caught, dispatch_command, handle_json, handle_request, not_found,
}
use instrument_script_server.Handlers.Effects.{
  Serves, if-Serves, with_value-Serves, with_text-Serves, stop_named-Serves, start_reply-Serves,
  with_plugin-Serves, create_from-IsValid, test_created-Serves,
}

-- Scripts leave a valid registry valid.
abbrev pub ScriptsKeep : Host → Type 0
ScriptsKeep host = (path : String) (r : Registry) → IsValid r → IsValid (host.script path r).2

-- The requests that do not change the registry.
module _ (host : Host) (params : Json) (s : Server) (v : IsValid s.registry) where
  submit_job-Serves : Serves (handle_submit_job host params s)
  unfolding handle_submit_job
  submit_job-Serves = with_value-Serves (json_value "params" (object end) params) _ (λ job_params.
      with_text-Serves "missing job_type" s _ (text_value "job_type" "" params) v (λ t. v))

  submit_measure-Serves : Serves (handle_submit_measure host params s)
  unfolding handle_submit_measure
  submit_measure-Serves =
      with_text-Serves "missing script_path" s _ (text_value "script_path" "" params) v
        (λ path. with_value-Serves (submit_measure host.now_ms path params s.jobs) _ (λ r. v))

  job_status-Serves : Serves (handle_job_status host params s)
  unfolding handle_job_status
  job_status-Serves =
      with_text-Serves "missing job_id" s _ (text_value "job_id" "" params) v (λ jid. v)

  job_result-Serves : Serves (handle_job_result params s)
  unfolding handle_job_result
  job_result-Serves =
      with_text-Serves "missing job_id" s _ (text_value "job_id" "" params) v (λ jid. v)

  job_cancel-Serves : Serves (handle_job_cancel params s)
  unfolding handle_job_cancel
  job_cancel-Serves =
      with_text-Serves "missing job_id" s _ (text_value "job_id" "" params) v (λ jid. v)

  status-Serves : Serves (handle_status host params s)
  unfolding handle_status
  status-Serves = with_text-Serves "missing name" s _ (text_value "name" "" params) v (λ name. v)

  daemon-Serves : Serves (handle_daemon host params s)
  unfolding handle_daemon
  daemon-Serves = with_value-Serves (text_value "action" "" params) _ (λ action.
      with_value-Serves (text_value "log_level" "info" params) _ (λ log_level.
        with_value-Serves (bool_value "block" true params) _ (λ block.
          if-Serves (action == "stop" && host.daemon_runs && host.daemon_here) _ _
            (stop_all-IsValid s.registry) v)))

  discover-Serves : Serves (handle_discover host params s)
  unfolding handle_discover discovered_by
  discover-Serves = with_value-Serves (paths_in (lookup "paths" (members params))) _ (λ paths. v)

  stop-Serves : Serves (handle_stop params s)
  unfolding handle_stop
  stop-Serves =
      with_text-Serves "missing name" s _ (text_value "name" "" params) v
        (λ name. stop_named-Serves name s v)

  measure-Serves : ScriptsKeep host → Serves (handle_measure host params s)
  unfolding handle_measure
  measure-Serves keep = with_value-Serves (text_value "log_level" "info" params) _ (λ log_level.
      with_value-Serves (bool_value "json" false params) _ (λ json_output.
        with_text-Serves "missing script_path" s _ (text_value "script_path" "" params) v (λ path.
          if-Serves (is_empty (list_instruments s.registry)) _ _ v (keep path s.registry v))))

  start-Serves : (J : JsonText) → Serves (handle_start J host params s)
  unfolding handle_start
  start-Serves J = with_value-Serves (text_value "plugin" "" params) _ (λ plugin.
      with_value-Serves (text_value "log_level" "info" params) _ (λ log_level.
        with_text-Serves "missing config_path" s _ (text_value "config_path" "" params) v (λ path.
          with_plugin-Serves host plugin s _ v (λ s' v'.
            start_reply-Serves (create_from J host path s') s'
              (create_from-IsValid J host path s' v')))))

  test-Serves : (J : JsonText) → Serves (handle_test J host params s)
  unfolding handle_test
  test-Serves J = with_value-Serves (text_value "config_path" "" params) _ (λ path.
      with_value-Serves (text_value "verb" "" params) _ (λ verb.
        with_value-Serves (text_value "plugin" "" params) _ (λ plugin.
          with_value-Serves (text_value "log_level" "info" params) _ (λ log_level.
            with_value-Serves (json_value "params" (object end) params) _ (λ values.
              if-Serves (path == "" || verb == "") _ _ v (
                with_plugin-Serves host plugin s _ v (λ s' v'.
                  test_created-Serves J host verb values s' (create_from J host path s')
                    (create_from-IsValid J host path s' v'))))))))

module _ (J : JsonText) where
  dispatch_command-Serves :
      (host : Host) (command : String) (params : Json) (s : Server)
      → ScriptsKeep host
      → IsValid s.registry
      → Serves (dispatch_command J host command params s)
  unfolding dispatch_command handle_list handle_plugins handle_job_list
  dispatch_command-Serves host command params s keep v = if-Serves (command == "list") _ _ v (
      if-Serves (command == "status") _ _ (status-Serves host params s v) (
        if-Serves (command == "start") _ _ (start-Serves host params s v J) (
          if-Serves (command == "stop") _ _ (stop-Serves host params s v) (
            if-Serves (command == "daemon") _ _ (daemon-Serves host params s v) (
              if-Serves (command == "measure") _ _ (measure-Serves host params s v keep) (
                if-Serves (command == "test") _ _ (test-Serves host params s v J) (
                  if-Serves (command == "discover") _ _ (discover-Serves host params s v) (
                    if-Serves (command == "plugins") _ _ v (
                      if-Serves (command == "submit_job") _ _ (submit_job-Serves host params s v) (
                        if-Serves (command == "submit_measure") _ _
                          (submit_measure-Serves host params s v)
                          (if-Serves (command == "job_status") _ _
                            (job_status-Serves host params s v)
                            (if-Serves (command == "job_result") _ _
                              (job_result-Serves host params s v)
                              (if-Serves (command == "job_list") _ _ v (
                                if-Serves (command == "job_cancel") _ _
                                  (job_cancel-Serves host params s v) v))))))))))))))

  -- The registry of a server that goes on.
  GoesOn : Option (Response × Server) → Type 0
  GoesOn none = Unit
  GoesOn (some (r, s)) = IsValid s.registry

  caught-GoesOn : (host : Host) (s : Server) → IsValid s.registry → GoesOn (caught host s)
  unfolding GoesOn
  caught-GoesOn host s v = by_dump (host.dumps (exception_reply host).1)
    where
      by_dump :
          (b : Bool)
          → GoesOn (
              if b
              then some (record { status = 500; body = (exception_reply host).1 }, s)
              else none)
      by_dump true = v
      by_dump false = tt

  respond-GoesOn :
      (host : Host) (s : Server) (o : HandlerOutcome)
      → IsValid s.registry
      → Serves o
      → GoesOn (respond host s o)
  unfolding GoesOn
  respond-GoesOn host s (replied (rc, out) s') v h = by_dump (host.dumps out)
    where
      by_dump :
          (b : Bool)
          → GoesOn (
              if b
              then some (record { status = if nat_eqb rc 0 then 200 else 500; body = out }, s')
              else caught host s')
      by_dump true = h
      by_dump false = caught-GoesOn host s' h
  respond-GoesOn host s thrown v h = caught-GoesOn host s v
  respond-GoesOn host s (thrown_in s') v h = caught-GoesOn host s' h
  respond-GoesOn host s ended v h = tt

  handle_json-Serves :
      (host : Host) (o : Option Json) (s : Server)
      → ScriptsKeep host
      → IsValid s.registry
      → Serves (handle_json J host o s)
  handle_json-Serves host none s keep v = tt
  handle_json-Serves host (some req) s keep v =
      with_value-Serves (text_value "command" "" req) _ (λ command.
        with_value-Serves (json_value "params" (object end) req) _
          (λ params. dispatch_command-Serves host command params s keep v))

  handle_request-GoesOn :
      (host : Host) (method path : String) (body : J.Text) (s : Server)
      → ScriptsKeep host
      → IsValid s.registry
      → GoesOn (handle_request J host method path body s)
  unfolding handle_request GoesOn
  handle_request-GoesOn host method path body s keep v =
      by_target (method == "POST" && (path == "/rpc" || path == "/rpc/"))
    where
      by_target :
          (b : Bool)
          → GoesOn (
              if b
              then respond host s (handle_json J host (J.parse body) s)
              else some (not_found, s))
      by_target true =
          respond-GoesOn host s (handle_json J host (J.parse body) s) v
            (handle_json-Serves host (J.parse body) s keep v)
      by_target false = v

  -- A request that is answered leaves a valid registry valid, whatever its method, path and body, whichever command
  -- it is, and whatever the workers, the disk and the plugins do meanwhile, exceptions included: every
  -- instrument has its metadata, and its proxy carries its name and runs with an open queue. Scripts are
  -- taken to leave a valid registry valid.
  pub handle_request-IsValid :
      (host : Host) (method path : String) (body : J.Text) (s s' : Server) (r : Response)
      → ScriptsKeep host
      → IsValid s.registry
      → handle_request J host method path body s ≡ some (r, s')
      → IsValid s'.registry
  unfolding GoesOn
  handle_request-IsValid host method path body s s' r keep v e =
      subst GoesOn e (handle_request-GoesOn host method path body s keep v)
