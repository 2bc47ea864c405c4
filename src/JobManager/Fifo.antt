-- ===== src/JobManager/Fifo.antt =====
-- src/server/JobManager.cpp: histories without a cancellation.
use instrument_script_server.JobManager.Kept.{Sound}
use instrument_script_server.Base.{
  List, String, is_some, some, All, ◌≡◌, false, true, ◌∷◌, Bool-cases, Option-cases, ap, refl,
  subst, ◌++◌, inl, sym, ◌∙◌, arith, inr, not, ◌==◌, ◌&&◌, [], string_key,
}
use instrument_script_server.JobManager.{
  JobManager, Phase, idle, waiting, picked, started, sleeping, ending, finished, new_manager,
}
use instrument_script_server.JobManager.Loop.{
  Note, pop_and_start, must_wait, take_job, resume_job, copy_job, Script, work, work_in, Event,
  submits, cancels, stops, works, monitors, step, run, joined,
}
use instrument_script_server.JobManager.Invariant.{IsValid, Known, new_manager-IsValid, Held}
use instrument_script_server.JobManager.Order.{
  Fronted, Moved, step-Moved, run-order, is_cancel, submitted_ids, begun_ids,
}
use instrument_script_server.JobManager.Reachable.{step-Sound}
use instrument_script_server.JobManager.Turns.{lookup-Known}
use instrument_script_server.JobManager.Cases.{take_job-front, take_job-empty, pop_and_start-front}
use instrument_script_server.Json.Codec.{JsonText}

pop_and_start_goes :
    (jid : String) (rest : List String) (m : JobManager)
    → m.queue ≡ jid ∷ rest
    → Known m.jobs jid
    → is_some (pop_and_start jid m) ≡ true
pop_and_start_goes jid rest m e k =
    let (info, there) = lookup-Known m.jobs jid k in
    ap is_some (pop_and_start-front jid jid rest info m e there)

take_job_goes : (m : JobManager) → IsValid m → is_some (take_job m) ≡ true
take_job_goes m v = by_queue m.queue refl
  where
    begin : (jid : String) (rest : List String) → m.queue ≡ jid ∷ rest → is_some (take_job m) ≡ true
    begin jid rest e =
        let known = (subst (All (Known m.jobs)) e v.queue_known).0 in
        let (info, there) = lookup-Known m.jobs jid known in
        ap is_some (take_job-front jid rest info m e there)
        ∙ (elim (Bool-cases (not (info.type == "measure") && must_wait m)) [
          | inl wait ↦ simp wait refl
          | inr go ↦ simp go (pop_and_start_goes jid rest m e known)
        ])

    by_queue : (q : List String) → m.queue ≡ q → is_some (take_job m) ≡ true
    by_queue [] e = ap is_some (take_job-empty m e)
    by_queue (jid ∷ rest) e = begin jid rest e

resume_job_goes :
    (jid : String) (m : JobManager)
    → Known m.jobs jid
    → (rest : List String) × (m.queue ≡ jid ∷ rest)
    → is_some (resume_job jid m) ≡ true
unfolding resume_job
resume_job_goes jid m k (rest, e) = elim (Bool-cases (must_wait m)) [
  | inl wait ↦ rw (resume_job, wait) refl
  | inr go ↦ rw (resume_job, go) (pop_and_start_goes jid rest m e k)
]

copy_job_goes : (jid : String) (m : JobManager) → Known m.jobs jid → is_some (copy_job jid m) ≡ true
unfolding copy_job
copy_job_goes jid m k = let (info, there) = lookup-Known m.jobs jid k in rw (copy_job, there) refl

module _ (J : JsonText) where
  work_in_goes :
      (script : Script) (thrown : String) (m : JobManager) (p : Phase)
      → m.phase ≡ p
      → Fronted p m.queue
      → IsValid m
      → is_some (work_in J script thrown m p) ≡ true
  work_in_goes script thrown m idle e f v = take_job_goes m v
  work_in_goes script thrown m (waiting jid) e f v =
      resume_job_goes jid m (subst (λ x. Held x m.jobs) e v.held) f
  work_in_goes script thrown m (picked jid) e f v =
      copy_job_goes jid m (subst (λ x. Held x m.jobs) e v.held)
  work_in_goes script thrown m (started jid info) e f v = refl
  work_in_goes script thrown m (sleeping jid info ms slept) e f v = refl
  work_in_goes script thrown m (ending jid info result) e f v = refl
  work_in_goes script thrown m finished e f v = refl

  step_goes :
      (m : JobManager) (e : Event J)
      → Fronted m.phase m.queue
      → IsValid m
      → is_some (step J m e) ≡ true
  unfolding step work
  step_goes m (submits ms type params) f v = refl
  step_goes m (cancels id) f v = refl
  step_goes m stops f v = refl
  step_goes m (works script thrown) f v = work_in_goes script thrown m m.phase refl f v
  step_goes m (monitors jid r) f v = refl

  run_goes :
      (m : JobManager) (es : List (Event J))
      → All (λ e. is_cancel J e ≡ false) es
      → Fronted m.phase m.queue
      → IsValid m
      → (m' : JobManager) × (ns : List Note) × (run J m es ≡ some (m', ns))
  unfolding run
  run_goes m [] n f v = (m, [], refl)
  run_goes m (e ∷ es) n f v = elim (Option-cases (step J m e)) [
    | inl ends ↦ ground (arith, ends, step_goes m e f v)
    | inr (here, he) ↦
        let (m', ns, hl) =
          run_goes here.0 es n.1 (subst (Moved m) he (step-Moved J m e n.0 f)).0
            (subst Sound he (step-Sound J m e v)) in
        (m', joined here.1 ns, rw (he, hl) refl)
  ]

  -- Every history of a new manager in which no job is canceled goes through without the end of the process,
  -- and jobs are started in the order in which they were submitted: the ids submitted are those
  -- started, followed by those that are still in the queue.
  pub run-first_in_first_out :
      (es : List (Event J))
      → All (λ e. is_cancel J e ≡ false) es
      → (m : JobManager) × (ns : List Note) × (run J new_manager es ≡ some (m, ns))
        × (submitted_ids ns ≡ begun_ids ns ++ m.queue)
  run-first_in_first_out es n =
      let (m, ns, h) = run_goes new_manager es n tt new_manager-IsValid in
      (m, ns, h, sym (run-order J new_manager m es ns n tt h))
