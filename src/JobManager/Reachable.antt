-- ===== src/JobManager/Reachable.antt =====
-- src/server/JobManager.cpp: the invariant over whole histories.
use instrument_script_server.Json.Codec.{JsonText}
use instrument_script_server.Base.{
  ap, String, some, List, ◌≡◌, Option-cases, [], true, inl, subst, inr, ◌∷◌, string_key, refl, ◌∙◌,
  ap, ◌==◌, Bool-cases, some_inj, add, >>=-eq-some, member,
}
use instrument_script_server.JobManager.{
  JobManager, JobInfo, Phase, picked, started, waiting, finished, Result, sleeping, ending, idle,
  new_manager, stop,
}
use instrument_script_server.JobManager.Loop.{
  execute_job, dispatch_measure, Script, script_path_of, Event, run, step, work_in, Note, work,
  submits, cancels, works, monitors, stops,
}
use instrument_script_server.JobManager.Invariant.{IsValid, Held, runs, new_manager-IsValid}
use instrument_script_server.JobManager.Kept.{
  Sound, submit_job-IsValid, cancel_job-IsValid, monitor_job-IsValid, beside-IsValid,
}
use instrument_script_server.JobManager.Turns.{
  Clear, take_job-Sound, resume_job-Sound, copy_job-Sound, sleep_turn-IsValid, end_job-IsValid,
  onward-IsValid,
}

module _ (J : JsonText) where
  execute_job-IsValid :
      (script : Script) (thrown jid : String) (info : JobInfo) (m : JobManager)
      → m.phase ≡ started jid info
      → IsValid m
      → IsValid (execute_job J script thrown jid info m)
  unfolding execute_job dispatch_measure
  execute_job-IsValid script thrown jid info m p v = elim (Bool-cases (info.type == "sleep")) [
    | inl sleep ↦ rw (execute_job, sleep) (onward-IsValid m _ tt same v)
    | inr other ↦ elim (Bool-cases (info.type == "measure")) [
      | inl measure ↦ rw (execute_job, other, measure) (measured measure)
      | inr unknown ↦ rw (execute_job, other, unknown) (onward-IsValid m _ tt same v)
    ]
  ]
    where
      same : (t : String) → some info.type ≡ some t → Clear m t
      same t h = v.exclusive t (ap (λ x. runs x m.jobs) p ∙ h)

      enqueued :
          (info.type == "measure") ≡ true
          → (r : Result)
          → IsValid (record m {
            active_measure_jobs = add jid m.active_measure_jobs;
            phase = ending jid info r;
          })
      enqueued measure r = record {
        queue_known = v.queue_known;
        held = tt;
        exclusive = λ t h n on. cc (measure, n, ap (λ x. x == "measure") (some_inj h));
      }

      measured :
          (info.type == "measure") ≡ true → IsValid (dispatch_measure J script thrown jid info m)
      measured measure = elim (Option-cases (script_path_of J info.params)) [
        | inl bad ↦ rw (dispatch_measure, bad) (onward-IsValid m _ tt same v)
        | inr (path, there) ↦ elim (Bool-cases (path == "")) [
          | inl no_path ↦ rw (dispatch_measure, there, no_path) (onward-IsValid m _ tt same v)
          | inr has_path ↦ elim (Option-cases (script path)) [
            | inl ok ↦ rw (dispatch_measure, there, has_path, ok) (enqueued measure _)
            | inr (error, bad) ↦
                rw (dispatch_measure, there, has_path, bad) (onward-IsValid m _ tt same v)
          ]
        ]
      ]

  work_in-Sound :
      (script : Script) (thrown : String) (m : JobManager) (p : Phase)
      → m.phase ≡ p
      → IsValid m
      → Sound (work_in J script thrown m p)
  work_in-Sound script thrown m idle e v = take_job-Sound m v
  work_in-Sound script thrown m (waiting jid) e v =
      resume_job-Sound jid m (subst (λ x. Held x m.jobs) e v.held) v
  work_in-Sound script thrown m (picked jid) e v = copy_job-Sound jid m e v
  work_in-Sound script thrown m (started jid info) e v =
      execute_job-IsValid script thrown jid info m e v
  work_in-Sound script thrown m (sleeping jid info ms slept) e v =
      sleep_turn-IsValid jid info ms slept m e v
  work_in-Sound script thrown m (ending jid info result) e v = end_job-IsValid jid info result m v
  work_in-Sound script thrown m finished e v = v

  pub step-Sound : (m : JobManager) (e : Event J) → IsValid m → Sound (step J m e)
  unfolding step work stop
  step-Sound m (submits ms type params) v = submit_job-IsValid ms type params m v
  step-Sound m (cancels id) v = cancel_job-IsValid id m v
  step-Sound m stops v =
      beside-IsValid m (stop m) (λ j t h. h) v.queue_known refl (λ on. cc) (λ a. a) v
  step-Sound m (works script thrown) v = work_in-Sound script thrown m m.phase refl v
  step-Sound m (monitors jid r) v = elim (Bool-cases (member jid m.active_measure_jobs)) [
    | inl active ↦ rw (step, active) (monitor_job-IsValid jid r m v)
    | inr other ↦ rw (step, other) v
  ]

  run-Sound :
      (m m' : JobManager) (es : List (Event J)) (ns : List Note)
      → IsValid m
      → run J m es ≡ some (m', ns)
      → IsValid m'
  unfolding run
  run-Sound m m' [] ns v h = subst IsValid (ap (λ r. r.0) (some_inj h)) v
  run-Sound m m' (e ∷ es) ns v h =
      let (here, he, hs) = >>=-eq-some (step J m e) _ h in
      let (later, hl, hj) = >>=-eq-some (run J here.0 es) _ hs in
      subst IsValid (ap (λ r. r.0) (some_inj hj))
        (run-Sound here.0 later.0 es later.1 (subst Sound he (step-Sound m e v)) hl)

  -- After every history of a new manager, whatever is submitted, canceled and stopped and whatever the
  -- scripts do: each id in the queue and each that the worker holds is the id of a job, and while the
  -- worker runs a job that is not a measure job, and the manager is not stopped, no measure job is active.
  -- Jobs of type status and list are among these.
  pub run-new_manager-IsValid :
      (es : List (Event J)) (m : JobManager) (ns : List Note)
      → run J new_manager es ≡ some (m, ns)
      → IsValid m
  run-new_manager-IsValid es m ns h = run-Sound new_manager m es ns new_manager-IsValid h
