-- ===== src/JobManager/Invariant.antt =====
-- src/server/JobManager.cpp: what holds in every history of the manager.
use instrument_script_server.JobManager.{
  JobManager, JobInfo, Phase, idle, waiting, picked, started, sleeping, ending, finished,
  new_manager, emplace, drop_first,
}
use instrument_script_server.Base.{
  map_option, Dict, lookup, insert, All, String, has, List, Option, Option-cases, arith, ◌≡◌, inl,
  lookup-insert, some, string_key, ◌∙◌, ◌∷◌, Bool-cases, [], inr, none, sym, ◌==◌, false, refl,
  true,
}

abbrev pub job_type : String → Dict String JobInfo → Option String
job_type id jobs = map_option (λ info. info.type) (lookup id jobs)

abbrev pub Known : Dict String JobInfo → String → Type 0
Known jobs id = (t : String) × (job_type id jobs ≡ some t)

-- Jobs are never lost, and keep their type.
abbrev pub Grows : Dict String JobInfo → Dict String JobInfo → Type 0
Grows jobs jobs' = (id t : String) → job_type id jobs ≡ some t → job_type id jobs' ≡ some t

pub insert-Grows :
    (id : String) (old new : JobInfo) (jobs : Dict String JobInfo)
    → lookup id jobs ≡ some old
    → new.type ≡ old.type
    → Grows jobs (insert id new jobs)
insert-Grows id old new jobs e same j t h =
    ground (arith, e, same, h, lookup-insert id j new jobs, string_key.eqb_iff id j)

pub emplace-Grows :
    (id : String) (info : JobInfo) (jobs : Dict String JobInfo) → Grows jobs (emplace id info jobs)
unfolding emplace has
emplace-Grows id info jobs j t h =
    ground (arith, h, lookup-insert id j info jobs, string_key.eqb_iff id j)

pub emplace-Known :
    (id : String) (info : JobInfo) (jobs : Dict String JobInfo) → Known (emplace id info jobs) id
unfolding emplace has
emplace-Known id info jobs = elim (Option-cases (lookup id jobs)) [
  | inl new ↦
      (info.type, ground (arith, new, lookup-insert id id info jobs, string_key.eqb_iff id id))
  | inr (old, there) ↦ (old.type, ground (arith, there))
]

pub All-Grows :
    (jobs jobs' : Dict String JobInfo) (ids : List String)
    → Grows jobs jobs'
    → All (Known jobs) ids
    → All (Known jobs') ids
All-Grows jobs jobs' [] g a = tt
All-Grows jobs jobs' (id ∷ ids) g a = ((a.0.0, g id a.0.0 a.0.1), All-Grows jobs jobs' ids g a.1)

pub All-drop_first :
    (jobs : Dict String JobInfo) (id : String) (ids : List String)
    → All (Known jobs) ids
    → All (Known jobs) (drop_first id ids)
unfolding drop_first
All-drop_first jobs id [] a = tt
All-drop_first jobs id (j ∷ ids) a = elim (Bool-cases (id == j)) [
  | inl same ↦ rw same a.1
  | inr other ↦ rw other (a.0, All-drop_first jobs id ids a.1)
]

-- The id at which the worker will look up a job.
abbrev pub Held : Phase → Dict String JobInfo → Type 0
Held (waiting jid) jobs = Known jobs jid
Held (picked jid) jobs = Known jobs jid
Held _ jobs = Unit

pub Held-Grows :
    (p : Phase) (jobs jobs' : Dict String JobInfo) → Grows jobs jobs' → Held p jobs → Held p jobs'
Held-Grows (waiting jid) jobs jobs' g (t, e) = (t, g jid t e)
Held-Grows (picked jid) jobs jobs' g (t, e) = (t, g jid t e)
Held-Grows idle jobs jobs' g h = tt
Held-Grows (started jid info) jobs jobs' g h = tt
Held-Grows (sleeping jid info ms slept) jobs jobs' g h = tt
Held-Grows (ending jid info result) jobs jobs' g h = tt
Held-Grows finished jobs jobs' g h = tt

-- The type of the job that the worker has started and not ended.
abbrev pub runs : Phase → Dict String JobInfo → Option String
runs (picked jid) jobs = job_type jid jobs
runs (started jid info) jobs = some info.type
runs (sleeping jid info ms slept) jobs = some info.type
runs (ending jid info result) jobs = some info.type
runs _ jobs = none

pub runs-Grows :
    (p : Phase) (jobs jobs' : Dict String JobInfo)
    → Grows jobs jobs'
    → Held p jobs
    → runs p jobs' ≡ runs p jobs
runs-Grows (waiting jid) jobs jobs' g h = refl
runs-Grows (picked jid) jobs jobs' g (t, e) = g jid t e ∙ sym e
runs-Grows idle jobs jobs' g h = refl
runs-Grows (started jid info) jobs jobs' g h = refl
runs-Grows (sleeping jid info ms slept) jobs jobs' g h = refl
runs-Grows (ending jid info result) jobs jobs' g h = refl
runs-Grows finished jobs jobs' g h = refl

pub record IsValid (m : JobManager) : Type 0 where
  pub queue_known : All (Known m.jobs) m.queue
  pub held : Held m.phase m.jobs
  pub exclusive :
      (t : String)
      → runs m.phase m.jobs ≡ some t
      → (t == "measure") ≡ false
      → m.running ≡ true
      → m.active_measure_jobs ≡ []

pub new_manager-IsValid : IsValid new_manager
new_manager-IsValid = record { queue_known = tt; held = tt; exclusive = λ t e n on. refl }
