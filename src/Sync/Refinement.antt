-- ===== src/Sync/Refinement.antt =====
-- The coordinator against its contract: a barrier is the set of instruments still waited for.
use instrument_script_server.Base.{
  ℕ, String, ◌≡◌, refl, Bool, true, false, ◌&&◌, Option, none, some, List, arith, Option-cases,
  Bool-cases, inl, inr, lookup, lookup-insert, lookup-erase, member, add, remove, remove_absent,
  minus, subset, same_set, is_empty, minus-add, subset-minus, member-minus, subset-add,
  if◌then◌else◌, nat_eqb_iff, nat_key, string_key,
}
use instrument_script_server.Sync.{SyncBarrier, SyncCoordinator, record_ack, handle_ack}

abbrev pub waiting : SyncBarrier → List String
waiting b = minus b.expected_instruments b.acked_instruments

abbrev pub wait_of : Option SyncBarrier → Option (List String)
wait_of none = none
wait_of (some b) = some (waiting b)

-- What a client can tell of a barrier: none, or the instruments it still waits for.
abbrev pub view : ℕ → SyncCoordinator → Option (List String)
view t c = wait_of (lookup t c.barriers)

-- The contract of an acknowledgement.
abbrev pub after_ack : String → Option (List String) → Bool × Option (List String)
after_ack i none = (false, none)
after_ack i (some ws) =
    let rest = remove i ws in
    if member i ws && is_empty rest then (true, none) else (false, some rest)

-- Only expected instruments are recorded, and a barrier is dropped by its last acknowledgement.
pub record IsValid (c : SyncCoordinator) : Type 0 where
  pub acked_expected :
      (t : ℕ) (b : SyncBarrier)
      → lookup t c.barriers ≡ some b
      → subset b.acked_instruments b.expected_instruments ≡ true
  pub still_open :
      (t : ℕ) (b : SyncBarrier) (i : String)
      → lookup t c.barriers ≡ some b
      → member i b.acked_instruments ≡ true
      → is_empty (waiting b) ≡ false

record_ack_complete :
    (i : String) (b : SyncBarrier)
    → subset b.acked_instruments b.expected_instruments ≡ true
    → member i b.expected_instruments ≡ true
    → same_set (add i b.acked_instruments) b.expected_instruments ≡ is_empty (remove i (waiting b))
unfolding same_set
record_ack_complete i b valid m = ground (
  arith,
  subset-add i b.acked_instruments b.expected_instruments valid m,
  subset-minus b.expected_instruments (add i b.acked_instruments),
  minus-add i b.expected_instruments b.acked_instruments,
)

-- What one acknowledgement does to an open barrier that expects the instrument.
module _ (t : ℕ) (i : String) (b : SyncBarrier) (c : SyncCoordinator) where
  record_ack-Refines :
      subset b.acked_instruments b.expected_instruments ≡ true
      → member i b.expected_instruments ≡ true
      → (member i b.acked_instruments ≡ true → is_empty (waiting b) ≡ false)
      → ((record_ack t i b c).0 ≡ (after_ack i (some (waiting b))).0)
        × (view t (record_ack t i b c).1 ≡ (after_ack i (some (waiting b))).1)
  unfolding record_ack
  record_ack-Refines valid m open_ = ground (
    arith,
    record_ack_complete i b valid m,
    member-minus i b.expected_instruments b.acked_instruments,
    remove_absent i (waiting b),
    minus-add i b.expected_instruments b.acked_instruments,
    lookup-erase t t c.barriers,
    lookup-insert t t (record b { acked_instruments = add i b.acked_instruments }) c.barriers,
    nat_eqb_iff t t,
  )

-- An acknowledgement does what the contract says, on every branch: for an unknown token, an
-- instrument that is not expected, one that has acknowledged already, and the last one waited for.
pub handle_ack-Refines :
    (t : ℕ) (i : String) (c : SyncCoordinator)
    → IsValid c
    → ((handle_ack t i c).0 ≡ (after_ack i (view t c)).0)
      × (view t (handle_ack t i c).1 ≡ (after_ack i (view t c)).1)
unfolding handle_ack
handle_ack-Refines t i c v = elim (Option-cases (lookup t c.barriers)) [
  | inl e ↦ rw (e, handle_ack) (refl, rw e)
  | inr (b, e) ↦ elim (Bool-cases (member i b.expected_instruments)) [
    | inl m ↦
        rw (e, handle_ack, m)
          (record_ack-Refines t i b c (v.acked_expected t b e) m (v.still_open t b i e))
    | inr m ↦
        rw (e, handle_ack, m)
          (ground (
            arith,
            member-minus i b.expected_instruments b.acked_instruments,
            remove_absent i (waiting b),
          ))
  ]
]
