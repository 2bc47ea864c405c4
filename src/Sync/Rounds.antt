-- ===== src/Sync/Rounds.antt =====
-- Whole rounds of acknowledgements: a barrier completes exactly once, whatever their order.
use instrument_script_server.Base.{
  ℕ, ◌+◌, String, ◌≡◌, refl, Bool, true, false, not, Option, none, some, List, [], ◌∷◌, arith,
  lookup-insert, member, of_list, remove, remove_absent, subset, minus-nil, subset-cons,
  subset-is_empty, subset-of_list, is_empty, if◌then◌else◌, nat_eqb_iff, member-of_list,
  member-is_empty, string_key, nat_key, is_some, has, subset-is_empty, member_self, ◌∙◌,
}
use instrument_script_server.Sync.{SyncCoordinator, register_barrier, handle_ack, has_barrier}
use instrument_script_server.Sync.Refinement.{view, after_ack, IsValid, handle_ack-Refines}
use instrument_script_server.Sync.Reachable.{register_barrier-IsValid, handle_ack-IsValid}

abbrev count_true : Bool → ℕ
count_true true = 1
count_true false = 0

-- A round: acknowledgements of one token in the order of arrival, and how many of them complete it.
pub acks : ℕ → List String → SyncCoordinator → ℕ × SyncCoordinator
acks t [] c = (0, c)
acks t (i ∷ is) c =
    let (done, c') = handle_ack t i c in let (n, c'') = acks t is c' in (count_true done + n, c'')

contract : List String → Option (List String) → ℕ × Option (List String)
contract [] w = (0, w)
contract (i ∷ is) w =
    let (done, w') = after_ack i w in let (n, w'') = contract is w' in (count_true done + n, w'')

contract-none : (is : List String) → contract is none ≡ (0, none)
unfolding contract
contract-none [] = refl
contract-none (i ∷ is) = ground (arith, contract-none is)

contract-some :
    (is ws : List String)
    → is_empty ws ≡ false
    → ((contract is (some ws)).0 ≡ (if subset ws is then 1 else 0))
      × (is_some (contract is (some ws)).1 ≡ not (subset ws is))
unfolding contract
contract-some [] [] e = cc
contract-some [] (w ∷ ws) e = unfold subset member in (refl, refl)
contract-some (i ∷ is) ws e = ground (
  arith,
  subset-cons i ws is,
  subset-is_empty (remove i ws) is,
  contract-some is (remove i ws),
  contract-none is,
  remove_absent i ws,
)

acks-Refines :
    (t : ℕ) (is : List String) (c : SyncCoordinator)
    → IsValid c
    → ((acks t is c).0 ≡ (contract is (view t c)).0)
      × (view t (acks t is c).1 ≡ (contract is (view t c)).1)
unfolding acks contract
acks-Refines t [] c v = (refl, refl)
acks-Refines t (i ∷ is) c v = ground (
  arith,
  handle_ack-Refines t i c v,
  acks-Refines t is (handle_ack t i c).1 (handle_ack-IsValid t i c v),
)

view-register :
    (t : ℕ) (is : List String) (c : SyncCoordinator)
    → view t (register_barrier t is c) ≡ some (of_list is)
unfolding register_barrier
view-register t is c = ground (
  arith,
  lookup-insert t t (record { expected_instruments = of_list is; acked_instruments = [] })
      c.barriers,
  nat_eqb_iff t t,
  minus-nil (of_list is),
)

of_list-nonempty : (i : String) (is : List String) → is_empty (of_list (i ∷ is)) ≡ false
of_list-nonempty i is =
    member-is_empty i (of_list (i ∷ is)) (member-of_list i (i ∷ is) ∙ member_self i is)

-- After a barrier is registered for at least one instrument, a sequence of acknowledgements with
-- any order, repetitions and strangers completes it exactly once if it holds all the instruments,
-- and never otherwise; the barrier is gone exactly if it was completed.
pub round_exact :
    (t : ℕ) (i : String) (is names : List String) (c : SyncCoordinator)
    → IsValid c
    → ((acks t names (register_barrier t (i ∷ is) c)).0 ≡ (if subset (i ∷ is) names then 1 else 0))
      × (has_barrier t (acks t names (register_barrier t (i ∷ is) c)).1
          ≡ not (subset (i ∷ is) names))
unfolding has_barrier has
round_exact t i is names c v = ground (
  arith,
  acks-Refines t names (register_barrier t (i ∷ is) c) (register_barrier-IsValid t (i ∷ is) c v),
  view-register t (i ∷ is) c,
  contract-some names (of_list (i ∷ is)) (of_list-nonempty i is),
  subset-of_list (i ∷ is) names,
)
