-- ===== src/JobManager/Cases.antt =====
-- src/server/JobManager.cpp: what the sections of the worker's loop come to, case by case.
use instrument_script_server.Base.{
  String, ◌≡◌, List, [], some, ◌∷◌, if◌then◌else◌, lookup, insert, not, string_key, ◌==◌, ◌&&◌, ap,
  ◌∙◌,
}
use instrument_script_server.JobManager.{JobManager, JobInfo, waiting, picked, finished, running}
use instrument_script_server.JobManager.Loop.{
  begun, pop_and_start, must_wait, take_job, pop_from, take_from, set_running, take_found,
}

pub pop_and_start-front :
    (jid front : String) (rest : List String) (info : JobInfo) (m : JobManager)
    → m.queue ≡ front ∷ rest
    → lookup jid m.jobs ≡ some info
    → pop_and_start jid m
      ≡ some (
        record m {
          queue = rest;
          jobs = insert jid (record info { status = running }) m.jobs;
          phase = picked jid;
        },
        begun jid ∷ [],
      )
unfolding pop_and_start
pop_and_start-front jid front rest info m e there =
    ap (pop_from jid m) e ∙ ap (set_running jid m rest) there

pub take_job-front :
    (jid : String) (rest : List String) (info : JobInfo) (m : JobManager)
    → m.queue ≡ jid ∷ rest
    → lookup jid m.jobs ≡ some info
    → take_job m ≡ (
        if not (info.type == "measure") && must_wait m
        then some (record m { phase = waiting jid }, [])
        else pop_and_start jid m)
unfolding take_job
take_job-front jid rest info m e there = ap (take_from m) e ∙ ap (take_found m jid) there

pub take_job-empty :
    (m : JobManager)
    → m.queue ≡ []
    → take_job m ≡ some (if m.running then m else record m { phase = finished }, [])
unfolding take_job
take_job-empty m e = ap (take_from m) e
