-- ===== src/JobManager/Loop.antt =====
-- src/server/JobManager.cpp: the loop of the worker thread, and the histories of all threads' steps.
use instrument_script_server.JobManager.{
  canceling, canceled, JobInfo, JobManager, JobStatus, Result, Phase, completed, ending, failure,
  finished, idle, running, sleeping, started, submit_job, success, cancel_job, failed, picked,
  waiting, stop,
}
use instrument_script_server.Wire.{as_int}
use instrument_script_server.Json.Codec.{JsonText}
use instrument_script_server.Json.{Json, object_of, text, object, dict, integer, as_text}
use instrument_script_server.Base.{
  ◌>>=◌, Bool, List, String, [], false, ℕ, Option, if◌then◌else◌, lookup, true, ℤ, ◌∷◌, insert,
  some, string_key, ◌+◌, ◌==◌, ◌%◌, ◌^◌, none, not, pos, remove, add, is_empty, ltb, member, ◌&&◌,
  negsuc, ◌-◌,
}
use Prim.Native.String.{◌++◌}

-- Notes that a step takes of the ids it submits and starts.
pub data Note : Type 0 where
  submitted : String → Note
  begun : String → Note

abbrev pub Outcome : Type 0
Outcome = Option (JobManager × List Note)

abbrev pub joined : List Note → List Note → List Note
joined [] later = later
joined (n ∷ ns) later = n ∷ joined ns later

abbrev pub set_running : String → JobManager → List String → Option JobInfo → Outcome
set_running jid m rest none = none
set_running jid m rest (some info) = some (
  record m {
    queue = rest;
    jobs = insert jid (record info { status = running }) m.jobs;
    phase = picked jid;
  },
  begun jid ∷ [],
)

abbrev pub pop_from : String → JobManager → List String → Outcome
pop_from jid m [] = none
pop_from jid m (front ∷ rest) = set_running jid m rest (lookup jid m.jobs)

-- The job at the front has been looked at as `jid`: what stands at the front now is popped, and `jid`
-- is set running.
unfoldable pub pop_and_start : String → JobManager → Outcome
pop_and_start jid m = pop_from jid m m.queue

-- The wait for the measure jobs goes on.
abbrev pub must_wait : JobManager → Bool
must_wait m = not (is_empty m.active_measure_jobs) && m.running

abbrev pub take_found : JobManager → String → Option JobInfo → Outcome
take_found m jid none = none
take_found m jid (some info) =
    if not (info.type == "measure") && must_wait m
    then some (record m { phase = waiting jid }, [])
    else pop_and_start jid m

abbrev pub take_from : JobManager → List String → Outcome
take_from m [] = some (if m.running then m else record m { phase = finished }, [])
take_from m (jid ∷ rest) = take_found m jid (lookup jid m.jobs)

unfoldable pub take_job : JobManager → Outcome
take_job m = take_from m m.queue

-- The first section of the loop, taken up again after a wake-up with `jid` at hand.
unfoldable pub resume_job : String → JobManager → Outcome
resume_job jid m = if must_wait m then some (m, []) else pop_and_start jid m

unfoldable pub copy_job : String → JobManager → Outcome
copy_job jid m = elim (lookup jid m.jobs) [
  | none ↦ none
  | some info ↦ some (record m { phase = started jid info }, [])
]

-- An int from an int64_t.
abbrev pub to_int32 : ℤ → ℤ
to_int32 (pos n) =
    if ltb (n % 2 ^ 32) (2 ^ 31) then pos (n % 2 ^ 32) else negsuc (2 ^ 32 - 1 - n % 2 ^ 32)
to_int32 (negsuc n) =
    if ltb (n % 2 ^ 32) (2 ^ 31) then negsuc (n % 2 ^ 32) else pos (2 ^ 32 - 1 - n % 2 ^ 32)

abbrev pub below : ℤ → ℤ → Bool
below (pos n) (pos m) = ltb n m
below (pos n) (negsuc m) = false
below (negsuc n) (pos m) = true
below (negsuc n) (negsuc m) = ltb m n

-- slept += step, where an int that leaves its range is undefined behaviour: it is taken to wrap around.
abbrev pub slept_more : ℤ → ℤ
slept_more (pos n) = to_int32 (pos (n + 20))
slept_more (negsuc n) = if ltb n 20 then pos (19 - n) else negsuc (n - 20)

abbrev pub is_canceled : JobStatus → Bool
is_canceled canceling = true
is_canceled canceled = true
is_canceled _ = false

abbrev pub is_canceling : Option JobInfo → Bool
is_canceling none = false
is_canceling (some now) = is_canceled now.status

abbrev pub sleep_result : ℤ → Json
sleep_result ms = object_of (("duration_ms", integer ms) ∷ ("message", text "slept") ∷ [])

-- One turn of the loop that sleeps, in steps of 20 ms.
unfoldable pub sleep_turn : String → JobInfo → ℤ → ℤ → JobManager → JobManager
sleep_turn jid info ms slept m =
    if not (below slept ms)
    then record m { phase = ending jid info (success (sleep_result ms)) }
    else if is_canceling (lookup jid m.jobs)
    then record m { phase = ending jid info (failure "canceled") }
    else record m { phase = sleeping jid info ms (slept_more slept) }

-- The last section of the loop.
abbrev pub ended_job : Bool → Result → JobInfo → JobInfo
ended_job true (success r) info = info
ended_job false (success r) info = record info { status = completed; result = r }
ended_job _ (failure e) info = record info { status = failed; error = e }

abbrev pub still_active : Bool → Result → String → List String → List String
still_active true (failure e) jid active = remove jid active
still_active _ _ jid active = active

unfoldable pub end_job : String → JobInfo → Result → JobManager → JobManager
end_job jid info result m = elim (lookup jid m.jobs) [
  | none ↦ record m { phase = idle }
  | some now ↦ record m {
    jobs = insert jid (ended_job (info.type == "measure") result now) m.jobs;
    active_measure_jobs = still_active (info.type == "measure") result jid m.active_measure_jobs;
    phase = idle;
  }
]

-- What the monitor thread of a measure job does once all its commands are done.
unfoldable pub monitor_job : String → Json → JobManager → JobManager
monitor_job jid r m = elim (lookup jid m.jobs) [
  | none ↦ record m { active_measure_jobs = remove jid m.active_measure_jobs }
  | some now ↦ record m {
    jobs = insert jid (record now { status = completed; result = r }) m.jobs;
    active_measure_jobs = remove jid m.active_measure_jobs;
  }
]

-- What running a script gives: nothing, or the text of the exception.
abbrev pub Script : Type 0
Script = String → Option String

module _ (J : JsonText) where
  -- params.value("duration_ms", 100), and 100 if that throws.
  abbrev pub duration_of : Json → ℤ
  duration_of (object fs) = elim (lookup "duration_ms" (dict fs) >>= as_int J) [
    | none ↦ pos 100
    | some z ↦ to_int32 z
  ]
  duration_of _ = pos 100

  -- params.value("script_path", ""): `none` throws.
  abbrev pub script_path_of : Json → Option String
  script_path_of (object fs) = elim (lookup "script_path" (dict fs)) [
    | none ↦ some ""
    | some j ↦ as_text j
  ]
  script_path_of _ = none

  -- A measure job up to its monitor thread. `thrown` is the text of the exception of JSON.
  unfoldable pub dispatch_measure : Script → String → String → JobInfo → JobManager → JobManager
  dispatch_measure script thrown jid info m =
      let enqueued = object_of (("message", text "enqueued") ∷ []) in
      elim (script_path_of info.params) [
        | none ↦ record m { phase = ending jid info (failure thrown) }
        | some path ↦
            if path == ""
            then record m { phase = ending jid info (failure "missing script_path") }
            else elim (script path) [
              | some error ↦ record m { phase = ending jid info (failure error) }
              | none ↦ record m {
                active_measure_jobs = add jid m.active_measure_jobs;
                phase = ending jid info (success enqueued);
              }
            ]
      ]

  unfoldable pub execute_job : Script → String → String → JobInfo → JobManager → JobManager
  execute_job script thrown jid info m =
      if info.type == "sleep"
      then record m { phase = sleeping jid info (duration_of info.params) (pos 0) }
      else if info.type == "measure"
      then dispatch_measure script thrown jid info m
      else record m { phase = ending jid info (failure ("unknown job type: " ++ info.type)) }

  -- The next step of the worker thread.
  abbrev pub work_in : Script → String → JobManager → Phase → Outcome
  work_in script thrown m idle = take_job m
  work_in script thrown m (waiting jid) = resume_job jid m
  work_in script thrown m (picked jid) = copy_job jid m
  work_in script thrown m (started jid info) = some (execute_job script thrown jid info m, [])
  work_in script thrown m (sleeping jid info ms slept) = some (sleep_turn jid info ms slept m, [])
  work_in script thrown m (ending jid info result) = some (end_job jid info result m, [])
  work_in script thrown m finished = some (m, [])

  unfoldable pub work : Script → String → JobManager → Outcome
  work script thrown m = work_in script thrown m m.phase

  -- The steps of all threads.
  pub data Event : Type 0 where
    submits : ℕ → String → Json → Event
    cancels : String → Event
    stops : Event
    works : Script → String → Event
    monitors : String → Json → Event

  unfoldable pub step : JobManager → Event → Outcome
  step m (submits ms type params) =
      let (id, m') = submit_job ms type params m in some (m', submitted id ∷ [])
  step m (cancels id) = some ((cancel_job id m).1, [])
  step m stops = some (stop m, [])
  step m (works script thrown) = work script thrown m
  step m (monitors jid r) =
      some (if member jid m.active_measure_jobs then monitor_job jid r m else m, [])

  -- A history, with all its notes in order.
  unfoldable pub run : JobManager → List Event → Outcome
  run m [] = some (m, [])
  run m (e ∷ es) = do here ← step m e; later ← run here.0 es; some (later.0, joined here.1 later.1)
