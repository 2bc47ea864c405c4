-- ===== src/Handlers/Jobs.antt =====
-- src/server/CommandHandlers.cpp: the handlers for jobs.
use instrument_script_server.Base.{
  String, Bool, true, false, Option, none, some, [], ◌∷◌, Dict, map, if◌then◌else◌, string_key,
  ◌==◌,
}
use instrument_script_server.Json.{
  Json, boolean, text, integer, array, object, items, end, object_of,
}
use instrument_script_server.JobManager.{
  JobManager, JobInfo, JobStatus, queued, running, completed, failed, canceling, canceled,
  submit_job, submit_measure, get_job_info, get_job_result, list_jobs, cancel_job,
}
use instrument_script_server.Handlers.{
  Server, Host, Reply, HandlerOutcome, replied, refuse, text_value, json_value, with_value,
  with_text,
}

abbrev pub status_text : JobStatus → String
status_text queued = "queued"
status_text running = "running"
status_text completed = "completed"
status_text failed = "failed"
status_text canceling = "canceling"
status_text canceled = "canceled"

abbrev pub has_started : JobStatus → Bool
has_started running = true
has_started completed = true
has_started failed = true
has_started canceled = true
has_started _ = false

abbrev pub has_finished : JobStatus → Bool
has_finished completed = true
has_finished failed = true
has_finished canceled = true
has_finished _ = false

abbrev accepted : String × JobManager → Server → HandlerOutcome
accepted (jid, jobs) s =
    replied (0, ("job_id", text jid) ∷ ("ok", boolean true) ∷ []) (record s { jobs = jobs })

unfoldable pub handle_submit_job : Host → Json → Server → HandlerOutcome
handle_submit_job host params s =
    with_value (json_value "params" (object end) params) (λ job_params.
      with_text "missing job_type" s
        (λ job_type. accepted (submit_job host.now_ms job_type job_params s.jobs) s)
        (text_value "job_type" "" params))

unfoldable pub handle_submit_measure : Host → Json → Server → HandlerOutcome
handle_submit_measure host params s =
    with_text "missing script_path" s
      (λ script_path.
        with_value (submit_measure host.now_ms script_path params s.jobs) (λ r. accepted r s))
      (text_value "script_path" "" params)

abbrev pub time_field : Host → String → JobInfo → Bool → Dict String Json → Dict String Json
time_field host which info false m = m
time_field host which info true m = (which, integer (host.job_time info.id which)) ∷ m

abbrev pub job_reply : Host → Option JobInfo → Reply
job_reply host none = refuse "job not found"
job_reply host (some info) = (
  0,
  ("created_at", integer (host.job_time info.id "created_at"))
      ∷ time_field host "finished_at" info (has_finished info.status) (
          ("job_id", text info.id)
          ∷ ("ok", boolean true)
          ∷ time_field host "started_at" info (has_started info.status)
              (("status", text (status_text info.status)) ∷ [])),
)

unfoldable pub handle_job_status : Host → Json → Server → HandlerOutcome
handle_job_status host params s =
    with_text "missing job_id" s (λ jid. replied (job_reply host (get_job_info jid s.jobs)) s)
      (text_value "job_id" "" params)

abbrev pub detail_field : String → Dict String Json → Dict String Json
detail_field error m = if error == "" then m else ("error_detail", text error) ∷ m

abbrev pub unfinished : JobInfo → JobStatus → Reply
unfinished info completed = refuse "no result available"
unfinished info status = (
  1,
  ("error", text "job not completed")
      ∷ detail_field info.error
          (("ok", boolean false) ∷ ("status", text (status_text status)) ∷ []),
)

abbrev pub no_result : Option JobInfo → Reply
no_result none = refuse "job not found"
no_result (some info) = unfinished info info.status

abbrev pub result_reply : Option Json → Option JobInfo → Reply
result_reply (some result) info = (0, ("ok", boolean true) ∷ ("result", result) ∷ [])
result_reply none info = no_result info

unfoldable pub handle_job_result : Json → Server → HandlerOutcome
handle_job_result params s =
    with_text "missing job_id" s
      (λ jid. replied (result_reply (get_job_result jid s.jobs) (get_job_info jid s.jobs)) s)
      (text_value "job_id" "" params)

abbrev pub job_entry : Host → JobInfo → Json
job_entry host info = object_of (
    ("created_at", integer (host.job_time info.id "created_at"))
    ∷ ("job_id", text info.id)
    ∷ ("status", text (status_text info.status))
    ∷ ("type", text info.type)
    ∷ [])

unfoldable pub handle_job_list : Host → Server → HandlerOutcome
handle_job_list host s =
    replied
      (
        0,
        ("jobs", array (items (map (job_entry host) (list_jobs s.jobs))))
            ∷ ("ok", boolean true)
            ∷ [],
      )
      s

abbrev pub cancel_reply : Bool → Reply
cancel_reply true = (0, ("ok", boolean true) ∷ [])
cancel_reply false = refuse "failed to cancel job (maybe already finished)"

abbrev pub after_cancel : Bool × JobManager → Server → HandlerOutcome
after_cancel (ok, jobs) s = replied (cancel_reply ok) (record s { jobs = jobs })

unfoldable pub handle_job_cancel : Json → Server → HandlerOutcome
handle_job_cancel params s =
    with_text "missing job_id" s (λ jid. after_cancel (cancel_job jid s.jobs) s)
      (text_value "job_id" "" params)
