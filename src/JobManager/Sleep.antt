-- ===== src/JobManager/Sleep.antt =====
-- src/server/JobManager.cpp: the loop of a job that sleeps.
use Prim.Native.Nat.{zero}
use instrument_script_server.Base.{
  String, ℕ, ℤ, List, ◌<◌, ◌≡◌, ◌≤◌, [], lookup, pos, some, ap, arith, false, suc, ◌+◌, ◌∷◌,
  string_key, ◌*◌, refl, Bool-cases, ◌/◌, ◌^◌, ◌%◌, ltb, ◌==◌, ◌∙◌, leb, inl, inr, insert, true,
  lookup-insert,
}
use instrument_script_server.JobManager.{
  JobManager, JobInfo, sleeping, ending, success, failure, canceling, idle, failed,
}
use instrument_script_server.JobManager.Loop.{
  Script, work, work_in, Event, works, run, step, sleep_turn, is_canceling, sleep_result, end_job,
  is_canceled, slept_more,
}
use instrument_script_server.Json.Codec.{JsonText}

next_slept : (n : ℕ) → n + 20 < 2 ^ 31 → slept_more (pos n) ≡ pos (n + 20)
next_slept n h = by_rest (omega (arith, h)) (ground (arith, h))
  where
    by_rest :
        (n + 20) % 2 ^ 32 ≡ n + 20
        → ltb (n + 20) (2 ^ 31) ≡ true
        → slept_more (pos n) ≡ pos (n + 20)
    by_rest e small = rw (e, small) refl

module _ (J : JsonText) (script : Script) (thrown : String) where
  -- `n` steps of the worker, with nothing else between them.
  abbrev pub alone : ℕ → List (Event J)
  alone zero = []
  alone (suc n) = works script thrown ∷ alone n

  module _ (jid : String) (info : JobInfo) where
    step-sleep_turn :
        (m : JobManager) (ms slept : ℤ)
        → m.phase ≡ sleeping jid info ms slept
        → step J m (works script thrown) ≡ some (sleep_turn jid info ms slept m, [])
    unfolding step work
    step-sleep_turn m ms slept e = ap (work_in J script thrown m) e

    run-alone :
        (n : ℕ) (m m1 m2 : JobManager)
        → step J m (works script thrown) ≡ some (m1, [])
        → run J m1 (alone n) ≡ some (m2, [])
        → run J m (alone (suc n)) ≡ some (m2, [])
    unfolding run
    run-alone n m m1 m2 h k = rw (h, k) refl

    slept_enough :
        (m : JobManager) (ms slept : ℕ)
        → ms ≤ slept
        → sleep_turn jid info (pos ms) (pos slept) m
          ≡ record m { phase = ending jid info (success (sleep_result (pos ms))) }
    unfolding sleep_turn
    slept_enough m ms slept h = ground arith

    sleeps_on :
        (m : JobManager) (ms slept : ℕ)
        → slept < ms
        → ms + 20 < 2 ^ 31
        → is_canceling (lookup jid m.jobs) ≡ false
        → sleep_turn jid info (pos ms) (pos slept) m
          ≡ record m { phase = sleeping jid info (pos ms) (pos (slept + 20)) }
    unfolding sleep_turn
    sleeps_on m ms slept h small c =
        rw (sleep_turn, slept_below h, c, next_slept slept (omega (arith, h, small))) refl
      where
        slept_below : slept < ms → ltb slept ms ≡ true
        slept_below k = ground (arith, k)

    last_turn :
        (m : JobManager) (ms slept : ℕ)
        → m.phase ≡ sleeping jid info (pos ms) (pos slept)
        → ms ≤ slept
        → run J m (alone 1)
          ≡ some (record m { phase = ending jid info (success (sleep_result (pos ms))) }, [])
    unfolding run
    last_turn m ms slept e enough =
        run-alone 0 m _ _
          (step-sleep_turn m (pos ms) (pos slept) e
            ∙ ap (λ x. some (x, [])) (slept_enough m ms slept enough))
          refl

    turns :
        (d : ℕ) (m : JobManager) (ms slept : ℕ)
        → m.phase ≡ sleeping jid info (pos ms) (pos slept)
        → is_canceling (lookup jid m.jobs) ≡ false
        → ms + 20 < 2 ^ 31
        → ms ≤ slept + 20 * d
        → (n : ℕ) × (n ≤ d + 1)
          × (run J m (alone n)
              ≡ some (record m { phase = ending jid info (success (sleep_result (pos ms))) }, []))
    unfolding run
    turns zero m ms slept e c short bound =
        (1, omega arith, last_turn m ms slept e (ground (arith, bound)))
    turns (suc d) m ms slept e c short bound = elim (Bool-cases (leb ms slept)) [
      | inl enough ↦ (1, omega arith, last_turn m ms slept e (ground (arith, enough)))
      | inr more ↦
          let m1 = record m { phase = sleeping jid info (pos ms) (pos (slept + 20)) } in
          let (n, small, ran) = turns d m1 ms (slept + 20) refl c short (ground (arith, bound)) in
          (
            suc n,
            omega (arith, small),
            run-alone n m m1 _
                (step-sleep_turn m (pos ms) (pos slept) e
                  ∙ ap (λ x. some (x, [])) (sleeps_on m ms slept (ground (arith, more)) short c))
                ran,
          )
    ]

    -- A job that begins to sleep for ms milliseconds, ms + 20 < 2 ^ 31, ends: a worker that is left alone, with a job that is not canceled, ends the loop with
    -- success after at most ms / 20 + 2 of its steps.
    pub sleep_ends :
        (m : JobManager) (ms : ℕ)
        → m.phase ≡ sleeping jid info (pos ms) (pos 0)
        → is_canceling (lookup jid m.jobs) ≡ false
        → ms + 20 < 2 ^ 31
        → (n : ℕ) × (n ≤ ms / 20 + 2)
          × (run J m (alone n)
              ≡ some (record m { phase = ending jid info (success (sleep_result (pos ms))) }, []))
    sleep_ends m ms e c short =
        let (n, small, ran) = turns (ms / 20 + 1) m ms 0 e c short (omega arith) in
        (n, omega (arith, small), ran)

    turn_canceled :
        (m : JobManager) (ms slept : ℕ) (now : JobInfo)
        → slept < ms
        → lookup jid m.jobs ≡ some now
        → now.status ≡ canceling
        → sleep_turn jid info (pos ms) (pos slept) m
          ≡ record m { phase = ending jid info (failure "canceled") }
    unfolding sleep_turn
    turn_canceled m ms slept now more there c =
        let told : is_canceling (lookup jid m.jobs) ≡ true =
          ap is_canceling there ∙ ap is_canceled c in
        ground (arith, told, more)

    end_failed :
        (m : JobManager) (now : JobInfo)
        → (info.type == "measure") ≡ false
        → lookup jid m.jobs ≡ some now
        → end_job jid info
            (failure "canceled")
            (record m { phase = ending jid info (failure "canceled") })
          ≡ record m {
            jobs = insert jid (record now { status = failed; error = "canceled" }) m.jobs;
            phase = idle;
          }
    unfolding end_job
    end_failed m now other there = rw (end_job, there, other) refl

    -- A job that sleeps, is not a measure job, has not yet slept its time (slept < ms) and has been told to cancel
    -- does not end as canceled: the worker's next two steps leave
    -- it failed, with the error "canceled".
    pub canceling_sleep_fails :
        (m : JobManager) (ms slept : ℕ) (now : JobInfo)
        → m.phase ≡ sleeping jid info (pos ms) (pos slept)
        → slept < ms
        → (info.type == "measure") ≡ false
        → lookup jid m.jobs ≡ some now
        → now.status ≡ canceling
        → (m' : JobManager) × (run J m (alone 2) ≡ some (m', []))
          × (m'.phase ≡ idle)
          × (lookup jid m'.jobs ≡ some (record now { status = failed; error = "canceled" }))
    unfolding step work run
    canceling_sleep_fails m ms slept now e more other there c =
        let m1 = record m { phase = ending jid info (failure "canceled") } in
        let left = record now { status = failed; error = "canceled" } in
        let m2 = record m { jobs = insert jid left m.jobs; phase = idle } in
        (
          m2,
          run-alone 1 m m1 m2
              (step-sleep_turn m (pos ms) (pos slept) e
                ∙ ap (λ x. some (x, [])) (turn_canceled m ms slept now more there c))
              (run-alone 0 m1 m2 m2 (ap (λ x. some (x, [])) (end_failed m now other there)) refl),
          refl,
          ground (arith, lookup-insert jid jid left m.jobs, string_key.eqb_iff jid jid),
        )
