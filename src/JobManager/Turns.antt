-- ===== src/JobManager/Turns.antt =====
-- src/server/JobManager.cpp: the sections of the worker keep the invariant.
use instrument_script_server.JobManager.Cases.{take_job-front, pop_and_start-front, take_job-empty}
use instrument_script_server.Base.{
  ap, All, String, some, List, lookup, ◌≡◌, Dict, Option-cases, [], true, inl, insert, subst, inr,
  sym, ◌∷◌, string_key, refl, ◌∙◌, ap, arith, ◌==◌, Bool-cases, false, map_option, is_empty, not,
  some_inj, ◌&&◌, Bool, if◌then◌else◌, ℤ,
}
use instrument_script_server.JobManager.{
  running, JobManager, JobInfo, running, Phase, picked, started, waiting, finished, Result,
  sleeping, ending, success, failure, idle,
}
use instrument_script_server.JobManager.Loop.{
  copy_job, must_wait, pop_and_start, resume_job, take_job, pop_from, end_job, sleep_turn,
  ended_job, sleep_result, slept_more, still_active, below, is_canceling,
}
use instrument_script_server.JobManager.Invariant.{
  All-Grows, IsValid, Known, Held, runs, insert-Grows, All-Grows,
}
use instrument_script_server.JobManager.Kept.{Sound}

pub lookup-Known :
    (jobs : Dict String JobInfo) (id : String)
    → Known jobs id
    → (info : JobInfo) × (lookup id jobs ≡ some info)
lookup-Known jobs id (t, e) = elim (Option-cases (lookup id jobs)) [
  | inl missing ↦ ground (arith, missing, e)
  | inr found ↦ found
]

-- The wait is over for jobs of this type.
abbrev pub Clear : JobManager → String → Type 0
Clear m t = (t == "measure") ≡ false → m.running ≡ true → m.active_measure_jobs ≡ []

not_waiting-Clear : (m : JobManager) (t : String) → must_wait m ≡ false → Clear m t
not_waiting-Clear m t h n on = no_members m.active_measure_jobs (ground (arith, h, on))
  where
    no_members : (xs : List String) → is_empty xs ≡ true → xs ≡ []
    no_members [] e = refl
    no_members (x ∷ xs) e = cc

pop_and_start-Sound :
    (jid : String) (info : JobInfo) (m : JobManager)
    → lookup jid m.jobs ≡ some info
    → Clear m info.type
    → IsValid m
    → Sound (pop_and_start jid m)
pop_and_start-Sound jid info m there c v = by_queue m.queue refl
  where
    begin :
        (front : String) (rest : List String) → m.queue ≡ front ∷ rest → Sound (pop_and_start jid m)
    begin front rest e =
        let g = insert-Grows jid info (record info { status = running }) m.jobs there refl in
        let known = subst (All (Known m.jobs)) e v.queue_known in
        let now = g jid info.type (ap (map_option (λ i. i.type)) there) in
        subst Sound (sym (pop_and_start-front jid front rest info m e there)) (record {
          queue_known = All-Grows m.jobs _ rest g known.1;
          held = (info.type, now);
          exclusive = λ t h n on. c (ap (λ x. x == "measure") (some_inj (sym now ∙ h)) ∙ n) on;
        })

    by_queue : (q : List String) → m.queue ≡ q → Sound (pop_and_start jid m)
    by_queue [] e = unfold pop_and_start in (subst Sound (sym (ap (pop_from jid m) e)) tt)
    by_queue (front ∷ rest) e = begin front rest e

-- The worker goes on to a phase in which it holds no id and runs the same job or none.
pub onward-IsValid :
    (m : JobManager) (p : Phase)
    → Held p m.jobs
    → ((t : String) → runs p m.jobs ≡ some t → Clear m t)
    → IsValid m
    → IsValid (record m { phase = p })
onward-IsValid m p h c v = record { queue_known = v.queue_known; held = h; exclusive = c }

pub take_job-Sound : (m : JobManager) → IsValid m → Sound (take_job m)
take_job-Sound m v = by_queue m.queue refl
  where
    unless_running : (b : Bool) → IsValid (if b then m else record m { phase = finished })
    unless_running true = v
    unless_running false = onward-IsValid m finished tt (λ t h. cc) v

    begin : (jid : String) (rest : List String) → m.queue ≡ jid ∷ rest → Sound (take_job m)
    begin jid rest e =
        let known = (subst (All (Known m.jobs)) e v.queue_known).0 in
        let (info, there) = lookup-Known m.jobs jid known in
        subst Sound (sym (take_job-front jid rest info m e there))
          (elim (Bool-cases (not (info.type == "measure") && must_wait m)) [
            | inl wait ↦ simp wait (onward-IsValid m (waiting jid) known (λ t h. cc) v)
            | inr go ↦ simp go (
                pop_and_start-Sound jid info m there
                  (λ n. not_waiting-Clear m info.type (ground (arith, go, n)) n) v)
          ])

    by_queue : (q : List String) → m.queue ≡ q → Sound (take_job m)
    by_queue [] e = subst Sound (sym (take_job-empty m e)) (unless_running m.running)
    by_queue (jid ∷ rest) e = begin jid rest e

pub resume_job-Sound :
    (jid : String) (m : JobManager) → Known m.jobs jid → IsValid m → Sound (resume_job jid m)
unfolding resume_job
resume_job-Sound jid m known v = elim (Bool-cases (must_wait m)) [
  | inl wait ↦ rw (resume_job, wait) v
  | inr go ↦
      let (info, there) = lookup-Known m.jobs jid known in
      rw (resume_job, go)
        (pop_and_start-Sound jid info m there (not_waiting-Clear m info.type go) v)
]

pub copy_job-Sound :
    (jid : String) (m : JobManager) → m.phase ≡ picked jid → IsValid m → Sound (copy_job jid m)
unfolding copy_job
copy_job-Sound jid m p v = elim (Option-cases (lookup jid m.jobs)) [
  | inl missing ↦ rw (copy_job, missing) tt
  | inr (info, there) ↦
      rw (copy_job, there)
        (onward-IsValid m (started jid info) tt
          (λ t h.
            v.exclusive t (ap (λ x. runs x m.jobs) p ∙ ap (map_option (λ i. i.type)) there ∙ h))
          v)
]

pub sleep_turn-IsValid :
    (jid : String) (info : JobInfo) (ms : ℤ) (slept : ℤ) (m : JobManager)
    → m.phase ≡ sleeping jid info ms slept
    → IsValid m
    → IsValid (sleep_turn jid info ms slept m)
unfolding sleep_turn
sleep_turn-IsValid jid info ms slept m p v =
    by_tests (below slept ms) (is_canceling (lookup jid m.jobs))
  where
    same : (t : String) → some info.type ≡ some t → Clear m t
    same t h = v.exclusive t (ap (λ x. runs x m.jobs) p ∙ h)

    by_tests :
        (more stopped : Bool)
        → IsValid (
            if not more
            then record m { phase = ending jid info (success (sleep_result ms)) }
            else if stopped
            then record m { phase = ending jid info (failure "canceled") }
            else record m { phase = sleeping jid info ms (slept_more slept) })
    by_tests false b = onward-IsValid m _ tt same v
    by_tests true true = onward-IsValid m _ tt same v
    by_tests true false = onward-IsValid m _ tt same v

pub end_job-IsValid :
    (jid : String) (info : JobInfo) (result : Result) (m : JobManager)
    → IsValid m
    → IsValid (end_job jid info result m)
unfolding end_job
end_job-IsValid jid info result m v = elim (Option-cases (lookup jid m.jobs)) [
  | inl missing ↦ rw (end_job, missing) (onward-IsValid m idle tt (λ t h. cc) v)
  | inr (now, there) ↦ rw (end_job, there) (ended now there)
]
  where
    same_type : (b : Bool) (r : Result) (now : JobInfo) → (ended_job b r now).type ≡ now.type
    same_type true (success r) now = refl
    same_type false (success r) now = refl
    same_type true (failure e) now = refl
    same_type false (failure e) now = refl

    ended :
        (now : JobInfo)
        → lookup jid m.jobs ≡ some now
        → IsValid (record m {
          jobs = insert jid (ended_job (info.type == "measure") result now) m.jobs;
          active_measure_jobs =
              still_active (info.type == "measure") result jid m.active_measure_jobs;
          phase = idle;
        })
    ended now there =
        let g =
          insert-Grows jid now _ m.jobs there (same_type (info.type == "measure") result now) in
        record {
          queue_known = All-Grows m.jobs _ m.queue g v.queue_known;
          held = tt;
          exclusive = λ t h. cc;
        }
