-- ===== src/JobManager.antt =====
-- src/server/JobManager.cpp: the job queue and its worker thread. Each section of the code that holds the
-- mutex is one step; between steps any other thread may take its own. The times of a job, which nothing
-- here reads, are left out. `none` is the end of the process: `jobs_.at` of an unknown id, or `pop_front`
-- of an empty queue.
pub mod Loop
pub mod Cases
pub mod Invariant
mod Kept
mod Turns
pub mod Reachable
pub mod Order
pub mod Fifo
pub mod Cancel
pub mod Sleep
mod Tests
use instrument_script_server.Wire.{as_integer}
use instrument_script_server.Json.Codec.{JsonText}
use instrument_script_server.Json.{Json, null, object_of, text, object, dict, integer, as_text}
use instrument_script_server.Base.{
  ◌>>=◌, Bool, Dict, List, String, [], false, ℕ, Option, if◌then◌else◌, lookup, map, to_decimal,
  true, ℤ, ◌∷◌, has, insert, some, string_key, ◌+◌, ◌==◌, ◌%◌, ◌^◌, none, not, pos, push_back,
  remove, add, is_empty, ltb, member, ◌&&◌, negsuc, ◌-◌,
}
use Prim.Native.String.{◌++◌}

pub data JobStatus : Type 0 where
  queued running completed failed canceling canceled : JobStatus

pub record JobInfo : Type 0 where
  pub id : String
  pub type : String
  pub params : Json
  pub status : JobStatus
  pub result : Json
  pub error : String

-- What running a job gave: its result, or the text of an exception.
pub data Result : Type 0 where
  success : Json → Result
  failure : String → Result

-- Where the worker thread stands: before the wait for a job; in the wait for the measure jobs, with the id
-- it has looked at; behind the section that starts a job; with its copy of the job; in the loop that
-- sleeps, with the duration and what has been slept; before the section that ends a job; behind the loop.
pub data Phase : Type 0 where
  idle : Phase
  waiting : String → Phase
  picked : String → Phase
  started : String → JobInfo → Phase
  sleeping : String → JobInfo → ℤ → ℤ → Phase
  ending : String → JobInfo → Result → Phase
  finished : Phase

pub record JobManager : Type 0 where
  pub jobs : Dict String JobInfo
  pub queue : List String
  pub next_id : ℕ
  pub running : Bool
  pub active_measure_jobs : List String
  pub phase : Phase

abbrev pub new_manager : JobManager
new_manager = record {
  jobs = [];
  queue = [];
  next_id = 1;
  running = true;
  active_measure_jobs = [];
  phase = idle;
}

-- `ms` is the time of the system clock.
unfoldable pub make_job_id : ℕ → JobManager → String
make_job_id ms m = "job-" ++ to_decimal ms ++ "-" ++ to_decimal m.next_id

abbrev pub queued_job : String → String → Json → JobInfo
queued_job id type params = record {
  id = id;
  type = type;
  params = params;
  status = queued;
  result = null;
  error = "";
}

-- jobs_.emplace(id, info)
unfoldable pub emplace : String → JobInfo → Dict String JobInfo → Dict String JobInfo
emplace id info jobs = if has id jobs then jobs else insert id info jobs

unfoldable pub submit_job : ℕ → String → Json → JobManager → String × JobManager
submit_job ms job_type params m =
    let id = make_job_id ms m in
    (
      id,
      record m {
        jobs = emplace id (queued_job id job_type params) m.jobs;
        queue = push_back id m.queue;
        next_id = (m.next_id + 1) % 2 ^ 64;
      },
    )

-- params["script_path"] = script_path, which throws if the value is neither null nor an object.
abbrev pub with_script_path : String → Json → Option Json
with_script_path path null = some (object_of (("script_path", text path) ∷ []))
with_script_path path (object fs) = some (object_of (insert "script_path" (text path) (dict fs)))
with_script_path path _ = none

unfoldable pub submit_measure : ℕ → String → Json → JobManager → Option (String × JobManager)
submit_measure ms script_path params m = do
  p ← with_script_path script_path params
  some (submit_job ms "measure" p m)

unfoldable pub get_job_info : String → JobManager → Option JobInfo
get_job_info job_id m = lookup job_id m.jobs

abbrev pub is_completed : JobStatus → Bool
is_completed completed = true
is_completed _ = false

unfoldable pub get_job_result : String → JobManager → Option Json
get_job_result job_id m = do
  info ← lookup job_id m.jobs
  if is_completed info.status then some info.result else none

unfoldable pub list_jobs : JobManager → List JobInfo
list_jobs m = map (λ e. e.1) m.jobs

-- queue_.erase of the first place that holds the id.
unfoldable pub drop_first : String → List String → List String
drop_first id [] = []
drop_first id (j ∷ js) = let rest = drop_first id js in if id == j then js else j ∷ rest

abbrev pub cancel_by : String → JobInfo → JobManager → JobStatus → Bool × JobManager
cancel_by id info m queued = (
  true,
  record m {
    jobs = insert id (record info { status = canceled; error = "canceled" }) m.jobs;
    queue = drop_first id m.queue;
  },
)
cancel_by id info m running =
    (true, record m { jobs = insert id (record info { status = canceling }) m.jobs })
cancel_by id info m _ = (false, m)

abbrev pub cancel_found : String → JobManager → Option JobInfo → Bool × JobManager
cancel_found job_id m none = (false, m)
cancel_found job_id m (some info) = cancel_by job_id info m info.status

unfoldable pub cancel_job : String → JobManager → Bool × JobManager
cancel_job job_id m = cancel_found job_id m (lookup job_id m.jobs)

unfoldable pub stop : JobManager → JobManager
stop m = record m { running = false }
