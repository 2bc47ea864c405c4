-- ===== src/Handlers/Replies.antt =====
-- src/server/CommandHandlers.cpp: the replies of the handlers that create no instrument.
use instrument_script_server.Base.{
  String, true, false, Option, none, some, List, lookup, string_key, refl, is_empty, ◌==◌, ◌&&◌,
}
use instrument_script_server.Json.{Json, object, end}
use instrument_script_server.Registry.{Registry, list_instruments, get_instrument}
use instrument_script_server.JobManager.{get_job_result, get_job_info, cancel_job, submit_measure}
use instrument_script_server.Context.{CallResult}
use instrument_script_server.Handlers.{Server, Host, text_value, bool_value, json_value}
use instrument_script_server.Handlers.Plugins.{handle_daemon}
use instrument_script_server.Handlers.Jobs.{
  handle_submit_job, handle_submit_measure, handle_job_status, handle_job_result, handle_job_list,
  handle_job_cancel,
}
use instrument_script_server.Handlers.Instruments.{handle_status, handle_list, handle_stop}
use instrument_script_server.Handlers.Measure.{handle_measure, script_reply}
use instrument_script_server.Handlers.Verdict.{
  Agrees, HasVerdict, refuse-Agrees, if-HasVerdict, with_value-HasVerdict, with_text-HasVerdict,
  job_reply-Agrees, result_reply-Agrees, cancel_reply-Agrees, daemon_reply-Agrees,
  status_reply-Agrees, stop_named-HasVerdict,
}

pub submit_job-HasVerdict :
    (host : Host) (params : Json) (s : Server) → HasVerdict (handle_submit_job host params s)
unfolding handle_submit_job lookup
submit_job-HasVerdict host params s =
    with_value-HasVerdict (json_value "params" (object end) params) _ (λ job_params.
      with_text-HasVerdict "missing job_type" s _ (text_value "job_type" "" params)
        (λ job_type. refl))

pub submit_measure-HasVerdict :
    (host : Host) (params : Json) (s : Server) → HasVerdict (handle_submit_measure host params s)
unfolding handle_submit_measure lookup
submit_measure-HasVerdict host params s =
    with_text-HasVerdict "missing script_path" s _ (text_value "script_path" "" params)
      (λ path. with_value-HasVerdict (submit_measure host.now_ms path params s.jobs) _ (λ r. refl))

pub job_status-HasVerdict :
    (host : Host) (params : Json) (s : Server) → HasVerdict (handle_job_status host params s)
unfolding handle_job_status
job_status-HasVerdict host params s =
    with_text-HasVerdict "missing job_id" s _ (text_value "job_id" "" params)
      (λ jid. job_reply-Agrees host (get_job_info jid s.jobs))

pub job_result-HasVerdict : (params : Json) (s : Server) → HasVerdict (handle_job_result params s)
unfolding handle_job_result
job_result-HasVerdict params s =
    with_text-HasVerdict "missing job_id" s _ (text_value "job_id" "" params)
      (λ jid. result_reply-Agrees (get_job_result jid s.jobs) (get_job_info jid s.jobs))

pub job_list-HasVerdict : (host : Host) (s : Server) → HasVerdict (handle_job_list host s)
unfolding handle_job_list lookup
job_list-HasVerdict host s = refl

pub job_cancel-HasVerdict : (params : Json) (s : Server) → HasVerdict (handle_job_cancel params s)
unfolding handle_job_cancel
job_cancel-HasVerdict params s =
    with_text-HasVerdict "missing job_id" s _ (text_value "job_id" "" params)
      (λ jid. cancel_reply-Agrees (cancel_job jid s.jobs).0)

pub daemon-HasVerdict :
    (host : Host) (params : Json) (s : Server) → HasVerdict (handle_daemon host params s)
unfolding handle_daemon
daemon-HasVerdict host params s = with_value-HasVerdict (text_value "action" "" params) _ (λ action.
    with_value-HasVerdict (text_value "log_level" "info" params) _ (λ log_level.
      with_value-HasVerdict (bool_value "block" true params) _ (λ block.
        if-HasVerdict (action == "stop" && host.daemon_runs && host.daemon_here) _ _ tt
          (daemon_reply-Agrees host action))))

pub status-HasVerdict :
    (host : Host) (params : Json) (s : Server) → HasVerdict (handle_status host params s)
unfolding handle_status
status-HasVerdict host params s =
    with_text-HasVerdict "missing name" s _ (text_value "name" "" params)
      (λ name. status_reply-Agrees host name (get_instrument name s.registry))

pub list-HasVerdict : (s : Server) → HasVerdict (handle_list s)
unfolding handle_list lookup
list-HasVerdict s = refl

pub stop-HasVerdict : (params : Json) (s : Server) → HasVerdict (handle_stop params s)
unfolding handle_stop
stop-HasVerdict params s =
    with_text-HasVerdict "missing name" s _ (text_value "name" "" params)
      (λ name. stop_named-HasVerdict name s)

pub script_reply-Agrees :
    (host : Host) (path : String) (o : Option String) (results : List CallResult) (r : Registry)
    → Agrees (script_reply host path (o, results, r))
unfolding lookup
script_reply-Agrees host path none results r = refl
script_reply-Agrees host path (some error) results r = refl

pub measure-HasVerdict :
    (host : Host) (params : Json) (s : Server) → HasVerdict (handle_measure host params s)
unfolding handle_measure
measure-HasVerdict host params s =
    with_value-HasVerdict (text_value "log_level" "info" params) _ (λ log_level.
      with_value-HasVerdict (bool_value "json" false params) _ (λ json_output.
        with_text-HasVerdict "missing script_path" s _ (text_value "script_path" "" params) (λ path.
          if-HasVerdict (is_empty (list_instruments s.registry)) _ _
            (refuse-Agrees "no instruments running")
            (let ran = host.script path s.registry in
              script_reply-Agrees host path ran.0 ran.1 ran.2))))
