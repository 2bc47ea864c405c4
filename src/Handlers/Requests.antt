-- ===== src/Handlers/Requests.antt =====
-- src/server/HttpRpcServer.cpp and src/server/CommandHandlers.cpp: the response to any request.
use instrument_script_server.Base.{
  String, Bool, true, false, Option, none, some, Dict, lookup, if◌then◌else◌, string_key, nat_eqb,
  ◌==◌, ◌≡◌, refl, ap, ◌∙◌, subst, ◌||◌, ◌&&◌,
}
use instrument_script_server.Json.{Json, boolean, object, end}
use instrument_script_server.Json.Codec.{JsonText}
use instrument_script_server.Wire.{ParamValue}
use instrument_script_server.Proxy.{Proxy}
use instrument_script_server.Registry.{Registry, list_instruments, get_instrument}
use instrument_script_server.Handlers.{
  Server, Host, HandlerOutcome, replied, thrown, thrown_in, ended, text_value, json_value,
}
use instrument_script_server.Handlers.Instruments.{
  handle_start, handle_test, last_of, test_with, test_found, test_last, test_created, create_from,
  params_of_json, sync_on, exception_reply, test_command,
}
use instrument_script_server.Handlers.Http.{
  Response, respond, caught, dispatch_command, handle_json, handle_request, not_found,
}
use instrument_script_server.Handlers.Verdict.{
  HasVerdict, refuse-Agrees, if-HasVerdict, with_value-HasVerdict, with_text-HasVerdict,
  handle_discover-HasVerdict, handle_plugins-HasVerdict, start_reply-HasVerdict,
  with_plugin-HasVerdict, after_test-HasVerdict,
}
use instrument_script_server.Handlers.Replies.{
  submit_job-HasVerdict, submit_measure-HasVerdict, job_status-HasVerdict, job_result-HasVerdict,
  job_list-HasVerdict, job_cancel-HasVerdict, daemon-HasVerdict, status-HasVerdict, list-HasVerdict,
  stop-HasVerdict, measure-HasVerdict,
}

module _ (J : JsonText) (host : Host) where
  start-HasVerdict : (params : Json) (s : Server) → HasVerdict (handle_start J host params s)
  unfolding handle_start
  start-HasVerdict params s = with_value-HasVerdict (text_value "plugin" "" params) _ (λ plugin.
      with_value-HasVerdict (text_value "log_level" "info" params) _ (λ log_level.
        with_text-HasVerdict "missing config_path" s _ (text_value "config_path" "" params) (λ path.
          with_plugin-HasVerdict host plugin s _
            (λ s'. start_reply-HasVerdict (create_from J host path s') s'))))

  test_with-HasVerdict :
      (name verb : String) (p : Proxy) (s : Server) (o : Option (Dict String ParamValue))
      → HasVerdict (test_with J host name verb p s o)
  test_with-HasVerdict name verb p s none = refuse-Agrees _
  test_with-HasVerdict name verb p s (some params) =
      after_test-HasVerdict J host name s (sync_on J host name p (test_command name verb params))

  test_found-HasVerdict :
      (name verb : String) (params : Json) (s : Server) (o : Option Proxy)
      → HasVerdict (test_found J host name verb params s o)
  test_found-HasVerdict name verb params s none = refuse-Agrees "failed to get instrument proxy"
  test_found-HasVerdict name verb params s (some p) =
      test_with-HasVerdict name verb p s (params_of_json host params)

  test_last-HasVerdict :
      (verb : String) (params : Json) (s : Server) (o : Option String)
      → HasVerdict (test_last J host verb params s o)
  test_last-HasVerdict verb params s none = refuse-Agrees "no instrument created"
  test_last-HasVerdict verb params s (some name) =
      test_found-HasVerdict name verb params s (get_instrument name s.registry)

  test_created-HasVerdict :
      (verb : String) (params : Json) (s : Server) (r : Bool × Registry)
      → HasVerdict (test_created J host verb params s r)
  test_created-HasVerdict verb params s (false, r) = refuse-Agrees "failed to create instrument"
  test_created-HasVerdict verb params s (true, r) =
      test_last-HasVerdict verb params (record s { registry = r }) (last_of (list_instruments r))

  test-HasVerdict : (params : Json) (s : Server) → HasVerdict (handle_test J host params s)
  unfolding handle_test
  test-HasVerdict params s = with_value-HasVerdict (text_value "config_path" "" params) _ (λ path.
      with_value-HasVerdict (text_value "verb" "" params) _ (λ verb.
        with_value-HasVerdict (text_value "plugin" "" params) _ (λ plugin.
          with_value-HasVerdict (text_value "log_level" "info" params) _ (λ log_level.
            with_value-HasVerdict (json_value "params" (object end) params) _ (λ values.
              if-HasVerdict (path == "" || verb == "") _ _
                (refuse-Agrees "missing config_path or verb")
                (with_plugin-HasVerdict host plugin s _
                  (λ s'. test_created-HasVerdict verb values s' (create_from J host path s'))))))))

  dispatch_command-HasVerdict :
      (command : String) (params : Json) (s : Server)
      → HasVerdict (dispatch_command J host command params s)
  unfolding dispatch_command
  dispatch_command-HasVerdict command params s =
      if-HasVerdict (command == "list") _ _ (list-HasVerdict s) (
        if-HasVerdict (command == "status") _ _ (status-HasVerdict host params s) (
          if-HasVerdict (command == "start") _ _ (start-HasVerdict params s) (
            if-HasVerdict (command == "stop") _ _ (stop-HasVerdict params s) (
              if-HasVerdict (command == "daemon") _ _ (daemon-HasVerdict host params s) (
                if-HasVerdict (command == "measure") _ _ (measure-HasVerdict host params s) (
                  if-HasVerdict (command == "test") _ _ (test-HasVerdict params s) (
                    if-HasVerdict (command == "discover") _ _
                      (handle_discover-HasVerdict host params s)
                      (if-HasVerdict (command == "plugins") _ _ (handle_plugins-HasVerdict host s) (
                        if-HasVerdict (command == "submit_job") _ _
                          (submit_job-HasVerdict host params s)
                          (if-HasVerdict (command == "submit_measure") _ _
                            (submit_measure-HasVerdict host params s)
                            (if-HasVerdict (command == "job_status") _ _
                              (job_status-HasVerdict host params s)
                              (if-HasVerdict (command == "job_result") _ _
                                (job_result-HasVerdict params s)
                                (if-HasVerdict (command == "job_list") _ _
                                  (job_list-HasVerdict host s)
                                  (if-HasVerdict (command == "job_cancel") _ _
                                    (job_cancel-HasVerdict params s)
                                    (refuse-Agrees "unknown command")))))))))))))))

  handle_json-HasVerdict : (o : Option Json) (s : Server) → HasVerdict (handle_json J host o s)
  handle_json-HasVerdict none s = tt
  handle_json-HasVerdict (some req) s =
      with_value-HasVerdict (text_value "command" "" req) _ (λ command.
        with_value-HasVerdict (json_value "params" (object end) req) _
          (λ params. dispatch_command-HasVerdict command params s))

  -- The status of a response agrees with its body.
  StatusAgrees : Option (Response × Server) → Type 0
  StatusAgrees none = Unit
  StatusAgrees (some (r, s)) = lookup "ok" r.body ≡ some (boolean (nat_eqb r.status 200))

  if-StatusAgrees :
      (b : Bool) (x y : Option (Response × Server))
      → StatusAgrees x
      → StatusAgrees y
      → StatusAgrees (if b then x else y)
  if-StatusAgrees true x y hx hy = hx
  if-StatusAgrees false x y hx hy = hy

  caught-StatusAgrees : (s : Server) → StatusAgrees (caught host s)
  unfolding StatusAgrees lookup
  caught-StatusAgrees s = if-StatusAgrees (host.dumps (exception_reply host).1) _ _ refl tt

  respond-StatusAgrees :
      (s : Server) (o : HandlerOutcome) → HasVerdict o → StatusAgrees (respond host s o)
  unfolding StatusAgrees lookup
  respond-StatusAgrees s (replied (rc, out) s') h =
      if-StatusAgrees (host.dumps out) _ _ (h ∙ ap (λ b. some (boolean b)) (same (nat_eqb rc 0)))
        (caught-StatusAgrees s')
    where
      same : (b : Bool) → b ≡ nat_eqb (if b then 200 else 500) 200
      same true = refl
      same false = refl
  respond-StatusAgrees s thrown h = caught-StatusAgrees s
  respond-StatusAgrees s (thrown_in s') h = caught-StatusAgrees s'
  respond-StatusAgrees s ended h = tt

  handle_request-StatusAgrees :
      (method path : String) (body : J.Text) (s : Server)
      → StatusAgrees (handle_request J host method path body s)
  unfolding handle_request StatusAgrees lookup
  handle_request-StatusAgrees method path body s =
      by_target (method == "POST" && (path == "/rpc" || path == "/rpc/"))
    where
      by_target :
          (b : Bool)
          → StatusAgrees (
              if b
              then respond host s (handle_json J host (J.parse body) s)
              else some (not_found, s))
      by_target true =
          respond-StatusAgrees s (handle_json J host (J.parse body) s)
            (handle_json-HasVerdict (J.parse body) s)
      by_target false = refl

  -- Every response to every request, whatever its method, path and body and whatever the handlers meet,
  -- exceptions included, has a Boolean `ok`, which is true just if the HTTP status is 200.
  pub handle_request-ok :
      (method path : String) (body : J.Text) (s s' : Server) (r : Response)
      → handle_request J host method path body s ≡ some (r, s')
      → lookup "ok" r.body ≡ some (boolean (nat_eqb r.status 200))
  unfolding StatusAgrees
  handle_request-ok method path body s s' r e =
      subst StatusAgrees e (handle_request-StatusAgrees method path body s)
