-- ===== src/JobManager/Order.antt =====
-- src/server/JobManager.cpp: the order in which jobs are started.
use instrument_script_server.Json.Codec.{JsonText}
use instrument_script_server.JobManager.Cases.{take_job-front, take_job-empty}
use instrument_script_server.Base.{
  List, String, some, [], ◌++◌, ◌≡◌, ap, ◌∷◌, Option-cases, lookup, inl, inr, string_key, none,
  refl, sym, append-nil, Bool-cases, not, ℤ, subst, ◌==◌, ◌&&◌, push_back, All, member, Bool,
  append_assoc, false, some_inj, true, >>=-eq-some,
}
use instrument_script_server.JobManager.{
  JobManager, Phase, waiting, JobInfo, Result, picked, submit_job, started, stop, sleeping, ending,
  idle, finished,
}
use instrument_script_server.JobManager.Loop.{
  Note, submitted, begun, Outcome, joined, pop_and_start, copy_job, end_job, resume_job, sleep_turn,
  take_job, must_wait, below, is_canceling, Event, Script, execute_job, run, step, cancels,
  dispatch_measure, work_in, script_path_of, monitor_job, submits, works, monitors, stops, work,
}

-- The ids of the jobs submitted, and of those started, in order.
pub submitted_ids : List Note → List String
submitted_ids [] = []
submitted_ids (submitted id ∷ ns) = id ∷ submitted_ids ns
submitted_ids (begun id ∷ ns) = submitted_ids ns

pub begun_ids : List Note → List String
begun_ids [] = []
begun_ids (submitted id ∷ ns) = begun_ids ns
begun_ids (begun id ∷ ns) = id ∷ begun_ids ns

begun_ids-joined : (ns ms : List Note) → begun_ids (joined ns ms) ≡ begun_ids ns ++ begun_ids ms
unfolding begun_ids
begun_ids-joined [] ms = refl
begun_ids-joined (submitted id ∷ ns) ms = begun_ids-joined ns ms
begun_ids-joined (begun id ∷ ns) ms = ap (◌∷◌ id) (begun_ids-joined ns ms)

submitted_ids-joined :
    (ns ms : List Note) → submitted_ids (joined ns ms) ≡ submitted_ids ns ++ submitted_ids ms
unfolding submitted_ids
submitted_ids-joined [] ms = refl
submitted_ids-joined (submitted id ∷ ns) ms = ap (◌∷◌ id) (submitted_ids-joined ns ms)
submitted_ids-joined (begun id ∷ ns) ms = submitted_ids-joined ns ms

-- A job that waits for the measure jobs still stands at the front.
abbrev pub Fronted : Phase → List String → Type 0
Fronted (waiting jid) queue = (rest : List String) × (queue ≡ jid ∷ rest)
Fronted _ queue = Unit

abbrev pub Moved : JobManager → Outcome → Type 0
Moved m none = Unit
Moved m (some (m', ns)) =
    Fronted m'.phase m'.queue × (begun_ids ns ++ m'.queue ≡ m.queue ++ submitted_ids ns)

same_queue : (q : List String) → [] ++ q ≡ q ++ []
same_queue q = sym (append-nil q)

pop_and_start-Moved :
    (jid : String) (m : JobManager) (rest : List String)
    → m.queue ≡ jid ∷ rest
    → Moved m (pop_and_start jid m)
unfolding pop_and_start begun_ids submitted_ids
pop_and_start-Moved jid m rest e = elim (Option-cases (lookup jid m.jobs)) [
  | inl missing ↦ rw (pop_and_start, e, missing) tt
  | inr (info, there) ↦ rw (pop_and_start, e, there) (tt, sym (append-nil (jid ∷ rest)))
]

take_job-Moved : (m : JobManager) → Fronted m.phase m.queue → Moved m (take_job m)
unfolding take_job begun_ids submitted_ids
take_job-Moved m f = by_queue m.queue refl
  where
    begin : (jid : String) (rest : List String) → m.queue ≡ jid ∷ rest → Moved m (take_job m)
    begin jid rest e = elim (Option-cases (lookup jid m.jobs)) [
      | inl missing ↦ rw (take_job, e, missing) tt
      | inr (info, there) ↦
          subst (Moved m) (sym (take_job-front jid rest info m e there))
            (elim (Bool-cases (not (info.type == "measure") && must_wait m)) [
              | inl wait ↦ simp wait ((rest, e), same_queue m.queue)
              | inr go ↦ simp go (pop_and_start-Moved jid m rest e)
            ])
    ]

    by_queue : (q : List String) → m.queue ≡ q → Moved m (take_job m)
    by_queue [] e = subst (Moved m) (sym (take_job-empty m e)) (elim (Bool-cases m.running) [
      | inl on ↦ simp on (f, same_queue m.queue)
      | inr off ↦ simp off (tt, same_queue m.queue)
    ])
    by_queue (jid ∷ rest) e = begin jid rest e

resume_job-Moved :
    (jid : String) (m : JobManager) (rest : List String)
    → m.phase ≡ waiting jid
    → m.queue ≡ jid ∷ rest
    → Moved m (resume_job jid m)
unfolding resume_job begun_ids submitted_ids
resume_job-Moved jid m rest p e = elim (Bool-cases (must_wait m)) [
  | inl wait ↦
      rw (resume_job, wait) ((subst (λ x. Fronted x m.queue) (sym p) (rest, e)), same_queue m.queue)
  | inr go ↦ rw (resume_job, go) (pop_and_start-Moved jid m rest e)
]

copy_job-Moved : (jid : String) (m : JobManager) → Moved m (copy_job jid m)
unfolding copy_job begun_ids submitted_ids
copy_job-Moved jid m = elim (Option-cases (lookup jid m.jobs)) [
  | inl missing ↦ rw (copy_job, missing) tt
  | inr (info, there) ↦ rw (copy_job, there) (tt, same_queue m.queue)
]

sleep_turn-Moved :
    (jid : String) (info : JobInfo) (ms : ℤ) (slept : ℤ) (m : JobManager)
    → Moved m (some (sleep_turn jid info ms slept m, []))
unfolding sleep_turn begun_ids submitted_ids
sleep_turn-Moved jid info ms slept m = elim (Bool-cases (below slept ms)) [
  | inl more ↦ elim (Bool-cases (is_canceling (lookup jid m.jobs))) [
    | inl stop_ ↦ rw (sleep_turn, more, stop_) (tt, same_queue m.queue)
    | inr go ↦ rw (sleep_turn, more, go) (tt, same_queue m.queue)
  ]
  | inr done ↦ rw (sleep_turn, done) (tt, same_queue m.queue)
]

end_job-Moved :
    (jid : String) (info : JobInfo) (result : Result) (m : JobManager)
    → Moved m (some (end_job jid info result m, []))
unfolding end_job begun_ids submitted_ids
end_job-Moved jid info result m = elim (Option-cases (lookup jid m.jobs)) [
  | inl missing ↦ rw (end_job, missing) (tt, same_queue m.queue)
  | inr (now, there) ↦ rw (end_job, there) (tt, same_queue m.queue)
]

abbrev Moves : JobManager → JobManager × List Note → Type 0
Moves m (m', ns) = begun_ids ns ++ m'.queue ≡ m.queue ++ submitted_ids ns

same-Moves : (m : JobManager) → Moves m (m, [])
unfolding begun_ids submitted_ids
same-Moves m = same_queue m.queue

joined_moves :
    (q q1 q2 : List String) (ns ms : List Note)
    → begun_ids ns ++ q1 ≡ q ++ submitted_ids ns
    → begun_ids ms ++ q2 ≡ q1 ++ submitted_ids ms
    → begun_ids (joined ns ms) ++ q2 ≡ q ++ submitted_ids (joined ns ms)
joined_moves q q1 q2 ns ms h k = cc (
  h,
  k,
  begun_ids-joined ns ms,
  submitted_ids-joined ns ms,
  append_assoc (begun_ids ns) (begun_ids ms) q2,
  append_assoc (begun_ids ns) q1 (submitted_ids ms),
  append_assoc q (submitted_ids ns) (submitted_ids ms),
)

module _ (J : JsonText) where
  execute_job-Moved :
      (script : Script) (thrown jid : String) (info : JobInfo) (m : JobManager)
      → Moved m (some (execute_job J script thrown jid info m, []))
  unfolding execute_job dispatch_measure begun_ids submitted_ids
  execute_job-Moved script thrown jid info m = elim (Bool-cases (info.type == "sleep")) [
    | inl sleep ↦ rw (execute_job, sleep) (tt, same_queue m.queue)
    | inr other ↦ elim (Bool-cases (info.type == "measure")) [
      | inl measure ↦ rw (execute_job, other, measure) measured
      | inr unknown ↦ rw (execute_job, other, unknown) (tt, same_queue m.queue)
    ]
  ]
    where
      measured : Moved m (some (dispatch_measure J script thrown jid info m, []))
      measured = elim (Option-cases (script_path_of J info.params)) [
        | inl bad ↦ rw (dispatch_measure, bad) (tt, same_queue m.queue)
        | inr (path, there) ↦ elim (Bool-cases (path == "")) [
          | inl no_path ↦ rw (dispatch_measure, there, no_path) (tt, same_queue m.queue)
          | inr has_path ↦ elim (Option-cases (script path)) [
            | inl ok ↦ rw (dispatch_measure, there, has_path, ok) (tt, same_queue m.queue)
            | inr (error, bad) ↦
                rw (dispatch_measure, there, has_path, bad) (tt, same_queue m.queue)
          ]
        ]
      ]

  work_in-Moved :
      (script : Script) (thrown : String) (m : JobManager) (p : Phase)
      → m.phase ≡ p
      → Fronted p m.queue
      → Moved m (work_in J script thrown m p)
  work_in-Moved script thrown m idle e f =
      take_job-Moved m (subst (λ x. Fronted x m.queue) (sym e) f)
  work_in-Moved script thrown m (waiting jid) e f = resume_job-Moved jid m f.0 e f.1
  work_in-Moved script thrown m (picked jid) e f = copy_job-Moved jid m
  work_in-Moved script thrown m (started jid info) e f = execute_job-Moved script thrown jid info m
  work_in-Moved script thrown m (sleeping jid info ms slept) e f =
      sleep_turn-Moved jid info ms slept m
  work_in-Moved script thrown m (ending jid info result) e f = end_job-Moved jid info result m
  work_in-Moved script thrown m finished e f =
      unfold begun_ids submitted_ids in
      (subst (λ x. Fronted x m.queue) (sym e) f, same_queue m.queue)

  -- No step of the history cancels a job.
  abbrev pub is_cancel : Event J → Bool
  is_cancel (cancels id) = true
  is_cancel _ = false

  front_stays :
      (p : Phase) (q : List String) (id : String) → Fronted p q → Fronted p (push_back id q)
  front_stays (waiting jid) q id (rest, e) = (push_back id rest, ap (push_back id) e)
  front_stays idle q id f = tt
  front_stays (picked jid) q id f = tt
  front_stays (started jid info) q id f = tt
  front_stays (sleeping jid info ms slept) q id f = tt
  front_stays (ending jid info result) q id f = tt
  front_stays finished q id f = tt

  pub step-Moved :
      (m : JobManager) (e : Event J)
      → is_cancel e ≡ false
      → Fronted m.phase m.queue
      → Moved m (step J m e)
  unfolding step submit_job stop monitor_job begun_ids submitted_ids work
  step-Moved m (submits ms type params) n f = (front_stays m.phase m.queue _ f, refl)
  step-Moved m (cancels id) n f = cc
  step-Moved m stops n f = (f, same_queue m.queue)
  step-Moved m (works script thrown) n f = work_in-Moved script thrown m m.phase refl f
  step-Moved m (monitors jid r) n f = elim (Bool-cases (member jid m.active_measure_jobs)) [
    | inl active ↦ elim (Option-cases (lookup jid m.jobs)) [
      | inl missing ↦ rw (active, step, monitor_job, missing) (f, same_queue m.queue)
      | inr (now, there) ↦ rw (active, step, monitor_job, there) (f, same_queue m.queue)
    ]
    | inr other ↦ rw (step, other) (f, same_queue m.queue)
  ]

  pub run-order :
      (m m' : JobManager) (es : List (Event J)) (ns : List Note)
      → All (λ e. is_cancel e ≡ false) es
      → Fronted m.phase m.queue
      → run J m es ≡ some (m', ns)
      → begun_ids ns ++ m'.queue ≡ m.queue ++ submitted_ids ns
  unfolding run
  run-order m m' [] ns n f h = subst (Moves m) (some_inj h) (same-Moves m)
  run-order m m' (e ∷ es) ns n f h =
      let (here, he, hs) = >>=-eq-some (step J m e) _ h in
      let (later, hl, hj) = >>=-eq-some (run J here.0 es) _ hs in
      let moved : Moved m (some here) = subst (Moved m) he (step-Moved m e n.0 f) in
      let rest = run-order here.0 later.0 es later.1 n.1 moved.0 hl in
      subst (Moves m) (some_inj hj)
        (joined_moves m.queue here.0.queue later.0.queue here.1 later.1 moved.1 rest)
