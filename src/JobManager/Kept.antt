-- ===== src/JobManager/Kept.antt =====
-- src/server/JobManager.cpp: every step keeps the invariant.
use instrument_script_server.Json.{Json}
use instrument_script_server.Base.{
  ap, All, String, remove, some, ℕ, List, lookup, none, ◌≡◌, Dict, Option-cases, [], true, inl,
  insert, push_back, subst, inr, sym, ◌∷◌, string_key, refl, ◌∙◌, ap,
}
use instrument_script_server.JobManager.{
  queued, running, completed, failed, canceling, canceled, JobManager, JobInfo, submit_job,
  cancel_job, emplace, JobStatus, cancel_by, make_job_id, queued, queued_job, running, completed,
}
use instrument_script_server.JobManager.Loop.{Outcome, monitor_job}
use instrument_script_server.JobManager.Invariant.{
  emplace-Known, emplace-Grows, All-Grows, IsValid, Grows, Known, Held, runs, insert-Grows,
  All-drop_first, All-Grows, Held-Grows, runs-Grows, emplace-Grows, emplace-Known,
}

abbrev pub Sound : Outcome → Type 0
Sound none = Unit
Sound (some (m, ns)) = IsValid m

-- A step that leaves the worker where it is.
pub beside-IsValid :
    (m m' : JobManager)
    → Grows m.jobs m'.jobs
    → All (Known m'.jobs) m'.queue
    → m'.phase ≡ m.phase
    → (m'.running ≡ true → m.running ≡ true)
    → (m.active_measure_jobs ≡ [] → m'.active_measure_jobs ≡ [])
    → IsValid m
    → IsValid m'
beside-IsValid m m' g q p on idle_still v = record {
  queue_known = q;
  held = subst (λ x. Held x m'.jobs) (sym p) (Held-Grows m.phase m.jobs m'.jobs g v.held);
  exclusive = λ t e n r. idle_still (
      v.exclusive t
        (sym (runs-Grows m.phase m.jobs m'.jobs g v.held) ∙ ap (λ x. runs x m'.jobs) (sym p) ∙ e) n
        (on r));
}

pub submit_job-IsValid :
    (ms : ℕ) (type : String) (params : Json) (m : JobManager)
    → IsValid m
    → IsValid (submit_job ms type params m).1
unfolding submit_job
submit_job-IsValid ms type params m v =
    let id = make_job_id ms m in
    let info = queued_job id type params in
    beside-IsValid m (submit_job ms type params m).1 (emplace-Grows id info m.jobs)
      (All-push_back (emplace id info m.jobs) id m.queue (emplace-Known id info m.jobs)
        (All-Grows m.jobs _ m.queue (emplace-Grows id info m.jobs) v.queue_known))
      refl (λ r. r) (λ a. a) v
  where
    All-push_back :
        (jobs : Dict String JobInfo) (id : String) (ids : List String)
        → Known jobs id
        → All (Known jobs) ids
        → All (Known jobs) (push_back id ids)
    All-push_back jobs id [] k a = (k, tt)
    All-push_back jobs id (j ∷ ids) k a = (a.0, All-push_back jobs id ids k a.1)

-- A step beside the worker that changes one job, and takes ids from the queue or from the measure jobs.
update-IsValid :
    (id : String) (old new : JobInfo) (queue active : List String) (m : JobManager)
    → lookup id m.jobs ≡ some old
    → new.type ≡ old.type
    → All (Known m.jobs) queue
    → (m.active_measure_jobs ≡ [] → active ≡ [])
    → IsValid m
    → IsValid
        (record m { jobs = insert id new m.jobs; queue = queue; active_measure_jobs = active })
update-IsValid id old new queue active m e same q a v =
    let g = insert-Grows id old new m.jobs e same in
    beside-IsValid m _ g (All-Grows m.jobs _ queue g q) refl (λ r. r) a v

pub cancel_job-IsValid : (id : String) (m : JobManager) → IsValid m → IsValid (cancel_job id m).1
unfolding cancel_job
cancel_job-IsValid id m v = elim (Option-cases (lookup id m.jobs)) [
  | inl missing ↦ rw (cancel_job, missing) v
  | inr (info, there) ↦ rw (cancel_job, there) (by_status info there info.status)
]
  where
    by_status :
        (info : JobInfo)
        → lookup id m.jobs ≡ some info
        → (s : JobStatus) → IsValid (cancel_by id info m s).1
    by_status info e queued =
        update-IsValid id info _ _ _ m e refl (All-drop_first m.jobs id m.queue v.queue_known)
          (λ a. a) v
    by_status info e running = update-IsValid id info _ _ _ m e refl v.queue_known (λ a. a) v
    by_status info e completed = v
    by_status info e failed = v
    by_status info e canceling = v
    by_status info e canceled = v

pub monitor_job-IsValid :
    (id : String) (r : Json) (m : JobManager) → IsValid m → IsValid (monitor_job id r m)
unfolding monitor_job remove
monitor_job-IsValid id r m v = elim (Option-cases (lookup id m.jobs)) [
  | inl missing ↦
      rw (monitor_job, missing)
        (beside-IsValid m _ (λ j t h. h) v.queue_known refl (λ on. on) (λ a. rw a refl) v)
  | inr (now, there) ↦
      rw (monitor_job, there)
        (update-IsValid id now _ _ _ m there refl v.queue_known (λ a. rw a refl) v)
]
