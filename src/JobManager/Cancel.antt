-- ===== src/JobManager/Cancel.antt =====
-- src/server/JobManager.cpp: what becomes of a canceled job.
use instrument_script_server.Base.{
  String, List, Option, map_option, ◌≡◌, lookup, ◌∷◌, some, string_key, ap, ◌∙◌, false, refl, true,
  [], none, ◌≢◌, arith, lookup-insert, if◌then◌else◌, Bool, subst, sym,
}
use instrument_script_server.JobManager.{
  JobManager, JobInfo, JobStatus, queued, running, cancel_job, cancel_by, drop_first, canceled,
  cancel_found,
}
use instrument_script_server.JobManager.Loop.{begun, must_wait, resume_job, pop_and_start, pop_from}
use instrument_script_server.JobManager.Cases.{pop_and_start-front}

abbrev pub status_of : String → JobManager → Option JobStatus
status_of id m = map_option (λ info. info.status) (lookup id m.jobs)

cancel_queued :
    (jid : String) (info : JobInfo) (m : JobManager)
    → lookup jid m.jobs ≡ some info
    → info.status ≡ queued
    → cancel_job jid m ≡ cancel_by jid info m queued
unfolding cancel_job
cancel_queued jid info m there q = ap (cancel_found jid m) there ∙ ap (cancel_by jid info m) q

drop_front : (jid : String) (rest : List String) → drop_first jid (jid ∷ rest) ≡ rest
unfolding drop_first
drop_front jid rest = simp ((string_key.eqb_iff jid jid).1 refl) refl

-- A queued job that the worker has looked at, at the front of the queue, is canceled when the worker is
-- about to leave its wait for the measure jobs: `cancel_job` reports success and the job reads as
-- canceled, but the worker runs it all the same. It takes the next job off the queue in its place,
-- whose status stays as it was; if there is no next job, `pop_front` meets an empty queue.
pub cancel_job-waiting :
    (jid : String) (rest : List String) (info : JobInfo) (m : JobManager)
    → m.queue ≡ jid ∷ rest
    → lookup jid m.jobs ≡ some info
    → info.status ≡ queued
    → must_wait m ≡ false
    → ((cancel_job jid m).0 ≡ true)
      × (status_of jid (cancel_job jid m).1 ≡ some canceled)
      × ((rest ≡ []) → resume_job jid (cancel_job jid m).1 ≡ none)
      × ((next : String) (later : List String)
          → rest ≡ next ∷ later
          → next ≢ jid
          → (m' : JobManager) × (resume_job jid (cancel_job jid m).1 ≡ some (m', begun jid ∷ []))
            × (status_of jid m' ≡ some running)
            × (m'.queue ≡ later)
            × (status_of next m' ≡ status_of next m))
cancel_job-waiting jid rest info m e there q go =
    subst Outcome_of (sym (cancel_queued jid info m there q)) (refl, stored, empty, started_anyway)
  where
    gone : JobInfo
    gone = record info { status = canceled; error = "canceled" }

    m1 : JobManager
    m1 = (cancel_by jid info m queued).1

    left : m1.queue ≡ rest
    left = ap (drop_first jid) e ∙ drop_front jid rest

    stored : status_of jid m1 ≡ some canceled
    stored = ground (arith, lookup-insert jid jid gone m.jobs, string_key.eqb_iff jid jid)

    goes : resume_job jid m1 ≡ pop_and_start jid m1
    goes = unfold resume_job in (ap (λ b. if b then some (m1, []) else pop_and_start jid m1) go)

    empty : (rest ≡ []) → resume_job jid m1 ≡ none
    empty none_left = goes ∙ unfold pop_and_start in (ap (pop_from jid m1) (left ∙ none_left))

    started_anyway :
        (next : String) (later : List String)
        → rest ≡ next ∷ later
        → next ≢ jid
        → (m' : JobManager) × (resume_job jid m1 ≡ some (m', begun jid ∷ []))
          × (status_of jid m' ≡ some running)
          × (m'.queue ≡ later)
          × (status_of next m' ≡ status_of next m)
    started_anyway next later more other = (
      _,
      goes
          ∙ pop_and_start-front jid next later gone m1 (left ∙ more)
              (ground (arith, lookup-insert jid jid gone m.jobs, string_key.eqb_iff jid jid)),
      ground (
        arith,
        lookup-insert jid jid (record gone { status = running }) m1.jobs,
        string_key.eqb_iff jid jid,
      ),
      refl,
      ground (
        arith,
        other,
        lookup-insert jid next (record gone { status = running }) m1.jobs,
        lookup-insert jid next gone m.jobs,
        string_key.eqb_iff jid next,
      ),
    )

    Outcome_of : Bool × JobManager → Type 0
    Outcome_of r =
        (r.0 ≡ true)
        × (status_of jid r.1 ≡ some canceled)
        × ((rest ≡ []) → resume_job jid r.1 ≡ none)
        × ((next : String) (later : List String)
            → rest ≡ next ∷ later
            → next ≢ jid
            → (m' : JobManager) × (resume_job jid r.1 ≡ some (m', begun jid ∷ []))
              × (status_of jid m' ≡ some running)
              × (m'.queue ≡ later)
              × (status_of next m' ≡ status_of next m))
