-- ===== src/Sync/Reachable.antt =====
-- Every method keeps the coordinator valid, so every reachable one is.
use instrument_script_server.Base.{
  insert, erase, subst, ℕ, String, ◌≡◌, true, false, some, List, [], ◌∷◌, arith, Option-cases,
  Bool-cases, inl, inr, lookup, lookup-insert, lookup-erase, member, add, of_list, minus, subset,
  is_empty, nat_eqb, string_key, nat_key, subset-add, subset-minus, same_set, subset-nil,
  member-nil,
}
use instrument_script_server.Sync.{
  SyncBarrier, SyncCoordinator, no_barriers, register_barrier, record_ack, handle_ack,
  clear_barrier,
}
use instrument_script_server.Sync.Refinement.{waiting, IsValid}

-- What `IsValid` says of one barrier.
abbrev Fits : SyncBarrier → Type 0
Fits b =
    (subset b.acked_instruments b.expected_instruments ≡ true)
    × ((i : String) → member i b.acked_instruments ≡ true → is_empty (waiting b) ≡ false)

abbrev AllFit : SyncCoordinator → Type 0
AllFit c = (t : ℕ) (b : SyncBarrier) → lookup t c.barriers ≡ some b → Fits b

to_AllFit : (c : SyncCoordinator) → IsValid c → AllFit c
to_AllFit c v t b e = (v.acked_expected t b e, λ i m. v.still_open t b i e m)

of_AllFit : (c : SyncCoordinator) → AllFit c → IsValid c
of_AllFit c f = record {
  acked_expected = λ t b e. (f t b e).0;
  still_open = λ t b i e m. (f t b e).1 i m;
}

insert-AllFit :
    (t : ℕ) (b : SyncBarrier) (c : SyncCoordinator)
    → Fits b
    → AllFit c
    → (u : ℕ) (x : SyncBarrier) → lookup u (insert t b c.barriers) ≡ some x
    → Fits x
insert-AllFit t b c fit f u x e = elim (Bool-cases (nat_eqb t u)) [
  | inl same ↦ subst Fits (ground (arith, lookup-insert t u b c.barriers)) fit
  | inr other ↦ f u x (ground (arith, lookup-insert t u b c.barriers))
]

erase-AllFit :
    (t : ℕ) (c : SyncCoordinator)
    → AllFit c
    → (u : ℕ) (x : SyncBarrier) → lookup u (erase t c.barriers) ≡ some x
    → Fits x
erase-AllFit t c f u x e = f u x (ground (arith, lookup-erase t u c.barriers))

fresh-Fits : (s : List String) → Fits (record { expected_instruments = s; acked_instruments = [] })
fresh-Fits s = (subset-nil s, λ i m. cc (member-nil i))

pub register_barrier-IsValid :
    (t : ℕ) (is : List String) (c : SyncCoordinator) → IsValid c → IsValid (register_barrier t is c)
unfolding register_barrier
register_barrier-IsValid t is c v =
    of_AllFit _ (insert-AllFit t _ c (fresh-Fits (of_list is)) (to_AllFit c v))

pub clear_barrier-IsValid : (t : ℕ) (c : SyncCoordinator) → IsValid c → IsValid (clear_barrier t c)
unfolding clear_barrier
clear_barrier-IsValid t c v = of_AllFit _ (erase-AllFit t c (to_AllFit c v))

still_waiting :
    (i : String) (b : SyncBarrier)
    → subset b.acked_instruments b.expected_instruments ≡ true
    → member i b.expected_instruments ≡ true
    → same_set (add i b.acked_instruments) b.expected_instruments ≡ false
    → is_empty (minus b.expected_instruments (add i b.acked_instruments)) ≡ false
unfolding same_set
still_waiting i b s m more = ground (
  arith,
  subset-add i b.acked_instruments b.expected_instruments s m,
  subset-minus b.expected_instruments (add i b.acked_instruments),
)

record_ack-IsValid :
    (t : ℕ) (i : String) (b : SyncBarrier) (c : SyncCoordinator)
    → IsValid c
    → subset b.acked_instruments b.expected_instruments ≡ true
    → member i b.expected_instruments ≡ true
    → IsValid (record_ack t i b c).1
unfolding record_ack
record_ack-IsValid t i b c v s m =
    elim (Bool-cases (same_set (add i b.acked_instruments) b.expected_instruments)) [
      | inl done ↦ rw done (of_AllFit _ (erase-AllFit t c (to_AllFit c v)))
      | inr more ↦ rw more (of_AllFit _ (insert-AllFit t _ c (fit more) (to_AllFit c v)))
    ]
  where
    fit :
        same_set (add i b.acked_instruments) b.expected_instruments ≡ false
        → Fits (record b { acked_instruments = add i b.acked_instruments })
    fit more = (subset-add i _ _ s m, λ j mj. still_waiting i b s m more)

pub handle_ack-IsValid :
    (t : ℕ) (i : String) (c : SyncCoordinator) → IsValid c → IsValid (handle_ack t i c).1
unfolding handle_ack
handle_ack-IsValid t i c v = elim (Option-cases (lookup t c.barriers)) [
  | inl e ↦ rw (e, handle_ack) v
  | inr (b, e) ↦ elim (Bool-cases (member i b.expected_instruments)) [
    | inl m ↦ rw (e, handle_ack, m) (record_ack-IsValid t i b c v (v.acked_expected t b e) m)
    | inr m ↦ rw (e, handle_ack, m) v
  ]
]

pub data Call : Type 0 where
  registers : ℕ → List String → Call
  acks : ℕ → String → Call
  clears : ℕ → Call

pub run : List Call → SyncCoordinator → SyncCoordinator
run [] c = c
run (registers t is ∷ cs) c = run cs (register_barrier t is c)
run (acks t i ∷ cs) c = run cs (handle_ack t i c).1
run (clears t ∷ cs) c = run cs (clear_barrier t c)

run-IsValid : (cs : List Call) (c : SyncCoordinator) → IsValid c → IsValid (run cs c)
unfolding run
run-IsValid [] c v = v
run-IsValid (registers t is ∷ cs) c v = run-IsValid cs _ (register_barrier-IsValid t is c v)
run-IsValid (acks t i ∷ cs) c v = run-IsValid cs _ (handle_ack-IsValid t i c v)
run-IsValid (clears t ∷ cs) c v = run-IsValid cs _ (clear_barrier-IsValid t c v)

pub no_barriers-IsValid : IsValid no_barriers
no_barriers-IsValid = record {
  acked_expected = λ t b e. unfold lookup in cc;
  still_open = λ t b i e m. unfold lookup in cc;
}

-- After any history of calls on a new coordinator, a barrier has recorded only instruments that it
-- expects, and one with an acknowledgement still waits for somebody.
pub run-no_barriers-IsValid : (cs : List Call) → IsValid (run cs no_barriers)
run-no_barriers-IsValid cs = run-IsValid cs no_barriers no_barriers-IsValid
