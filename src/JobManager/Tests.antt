-- ===== src/JobManager/Tests.antt =====
-- Histories of a job manager.
use instrument_script_server.Base.{
  List, lookup, none, ◌∷◌, [], ℕ, ◌≡◌, pos, refl, some, true, ◌≤◌, String, arith, ◌++◌, ◌/◌,
  string_key, ◌+◌, ◌≢◌,
}
use instrument_script_server.JobManager.{
  JobManager, JobInfo, new_manager, queued_job, running, canceling, failed, canceled, waiting,
  sleeping, ending, idle, success, cancel_job, ◌∷◌,
}
use instrument_script_server.JobManager.Loop.{
  begun, resume_job, Script, Event, submits, works, run, sleep_result, Note,
}
use instrument_script_server.JobManager.Invariant.{IsValid}
use instrument_script_server.JobManager.Reachable.{run-new_manager-IsValid}
use instrument_script_server.JobManager.Fifo.{run-first_in_first_out}
use instrument_script_server.JobManager.Order.{submitted_ids, begun_ids}
use instrument_script_server.JobManager.Cancel.{cancel_job-waiting, status_of}
use instrument_script_server.JobManager.Sleep.{sleep_ends, canceling_sleep_fails, alone}
use instrument_script_server.Json.{null}
use instrument_script_server.Samples.{values}

abbrev quiet : Script
quiet path = none

-- A job is submitted and started, and another waits.
abbrev two_jobs : List (Event values)
two_jobs =
    submits 5 "sleep" null
    ∷ submits 5 "other" null
    ∷ works quiet ""
    ∷ works quiet ""
    ∷ works quiet ""
    ∷ []

run-first_in_first_out_example :
    (m : JobManager) × (ns : List Note) × (run values new_manager two_jobs ≡ some (m, ns))
    × (submitted_ids ns ≡ begun_ids ns ++ m.queue)
run-first_in_first_out_example =
    run-first_in_first_out values two_jobs (refl, (refl, (refl, (refl, (refl, tt)))))

abbrev after_two : JobManager × List Note
after_two =
    let r = run-first_in_first_out values two_jobs (refl, (refl, (refl, (refl, (refl, tt))))) in
    (r.0, r.1)

run-new_manager-IsValid_example : IsValid after_two.0
run-new_manager-IsValid_example =
    run-new_manager-IsValid values two_jobs after_two.0 after_two.1
      (run-first_in_first_out values two_jobs (refl, (refl, (refl, (refl, (refl, tt)))))).2

abbrev others : List String
others = "job-5-2" ∷ []

abbrev looked_at : JobManager
looked_at = record new_manager {
  jobs =
      ("job-5-1", queued_job "job-5-1" "sleep" null)
      ∷ ("job-5-2", queued_job "job-5-2" "sleep" null)
      ∷ [];
  queue = "job-5-1" ∷ "job-5-2" ∷ [];
  phase = waiting "job-5-1";
}

cancel_job-waiting_example :
    ((cancel_job "job-5-1" looked_at).0 ≡ true)
    × (status_of "job-5-1" (cancel_job "job-5-1" looked_at).1 ≡ some canceled)
    × ((others ≡ []) → resume_job "job-5-1" (cancel_job "job-5-1" looked_at).1 ≡ none)
    × ((next : String) (later : List String)
        → others ≡ next ∷ later
        → next ≢ "job-5-1"
        → (m' : JobManager) × (resume_job "job-5-1" (cancel_job "job-5-1" looked_at).1
            ≡ some (m', begun "job-5-1" ∷ []))
          × (status_of "job-5-1" m' ≡ some running)
          × (m'.queue ≡ later)
          × (status_of next m' ≡ status_of next looked_at))
unfolding lookup
cancel_job-waiting_example =
    cancel_job-waiting "job-5-1" others (queued_job "job-5-1" "sleep" null) looked_at refl refl refl
      refl

abbrev sleep_job : JobInfo
sleep_job = record (queued_job "job-5-1" "sleep" null) { status = running }

abbrev asleep : JobManager
asleep = record new_manager {
  jobs = ("job-5-1", sleep_job) ∷ [];
  phase = sleeping "job-5-1" sleep_job (pos 50) (pos 0);
}

sleep_ends_example :
    (n : ℕ) × (n ≤ 50 / 20 + 2)
    × (run values asleep (alone values quiet "" n)
        ≡ some (
          record asleep { phase = ending "job-5-1" sleep_job (success (sleep_result (pos 50))) },
          [],
        ))
unfolding lookup
sleep_ends_example =
    sleep_ends values quiet "" "job-5-1" sleep_job asleep 50 refl refl (omega arith)

abbrev told : JobInfo
told = record sleep_job { status = canceling }

abbrev told_asleep : JobManager
told_asleep = record asleep { jobs = ("job-5-1", told) ∷ [] }

canceling_sleep_fails_example :
    (m' : JobManager) × (run values told_asleep (alone values quiet "" 2) ≡ some (m', []))
    × (m'.phase ≡ idle)
    × (lookup "job-5-1" m'.jobs ≡ some (record told { status = failed; error = "canceled" }))
unfolding lookup
canceling_sleep_fails_example =
    canceling_sleep_fails values quiet "" "job-5-1" sleep_job told_asleep 50 0 told refl
      (omega arith) refl refl refl
