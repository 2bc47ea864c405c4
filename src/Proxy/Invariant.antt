-- ===== src/Proxy/Invariant.antt =====
-- Every command that a proxy has issued is pending or answered, never both, whatever happens.
use instrument_script_server.Base.{
  some_inj, subst, ℕ, ◌+◌, ◌<◌, ◌^◌, String, ◌≡◌, refl, Bool, true, false, ◌&&◌, ◌||◌, some, [],
  ◌∷◌, arith, Dict, lookup, has, insert, lookup-insert, lookup-erase, insert-Unique, erase-Unique,
  Unique, ltb, nat_eqb_iff, if◌then◌else◌, is_some, nat_key, Bool-cases, >>=-eq-some, Option-cases,
  map_option, none, inl, inr, ◌⊎◌, not,
}
use instrument_script_server.Wire.{CommandResponse}
use instrument_script_server.Proxy.{
  Proxy, new_proxy, error_response, resolve, count_sent, count_done, open_request, fail_pending,
  cleanup_pending_promises, finish_sync, handle_response_message, start, step, stop, JsonText,
  count_timeout, handle_worker_death, Event, IpcMessage, deserialize_response, starts, opens, sends,
  end_send, fail_request, finishes_sync, responds, worker_dies, stops,
}

abbrev pub answered : ℕ → Proxy → Bool
answered id p = is_some (lookup id p.resolved)

abbrev pub issued : ℕ → Proxy → Bool
issued id p = ltb 0 id && ltb id p.next_message_id

pub record IsValid (p : Proxy) : Type 0 where
  pub unique : Unique p.pending
  pub once : (id : ℕ) → (has id p.pending && answered id p) ≡ false
  pub kept : (id : ℕ) → (has id p.pending || answered id p) ≡ issued id p
  pub from_one : 0 < p.next_message_id

pub new_proxy-IsValid : (name : String) → IsValid (new_proxy name)
unfolding has lookup
new_proxy-IsValid name = record {
  unique = tt;
  once = λ id. refl;
  kept = λ id. ground arith;
  from_one = omega arith;
}

open_request-IsValid :
    (p : Proxy) → IsValid p → p.next_message_id + 1 < 2 ^ 64 → IsValid (open_request p)
unfolding open_request has
open_request-IsValid p v room = record {
  unique = insert-Unique p.next_message_id tt p.pending v.unique;
  once =
      λ id. ground (arith, v.once id, v.kept id, lookup-insert p.next_message_id id tt p.pending);
  kept = λ id.
      ground
        (arith, v.once id, v.kept id, v.from_one, lookup-insert p.next_message_id id tt p.pending);
  from_one = omega arith;
}

resolve-IsValid :
    (msg_id : ℕ) (r : CommandResponse) (p : Proxy)
    → has msg_id p.pending ≡ true
    → IsValid p
    → IsValid (resolve msg_id r p)
unfolding resolve has
resolve-IsValid msg_id r p h v = record {
  unique = erase-Unique msg_id p.pending v.unique;
  once = λ id. ground (
    arith,
    v.once id,
    v.kept id,
    lookup-erase msg_id id p.pending,
    lookup-insert msg_id id r p.resolved,
  );
  kept = λ id. ground (
    arith,
    v.once id,
    v.kept id,
    lookup-erase msg_id id p.pending,
    lookup-insert msg_id id r p.resolved,
    nat_eqb_iff msg_id id,
  );
  from_one = v.from_one;
}

count_sent-IsValid : (p : Proxy) → IsValid p → IsValid (count_sent p)
unfolding count_sent
count_sent-IsValid p v = record {
  unique = v.unique;
  once = v.once;
  kept = v.kept;
  from_one = v.from_one;
}

count_done-IsValid : (b : Bool) (p : Proxy) → IsValid p → IsValid (count_done b p)
unfolding count_done
count_done-IsValid true p v = record {
  unique = v.unique;
  once = v.once;
  kept = v.kept;
  from_one = v.from_one;
}
count_done-IsValid false p v = record {
  unique = v.unique;
  once = v.once;
  kept = v.kept;
  from_one = v.from_one;
}

-- The promises of `ids` after `fail_pending`, and what it leaves alone.
pub fail_pending_lem :
    (m : String) (ids : Dict ℕ (Unit {0})) (p : Proxy)
    → ((id : ℕ)
        → lookup id (fail_pending m ids p).resolved ≡ (
            if has id ids
            then some (error_response "" p.instrument_name m)
            else lookup id p.resolved))
      × ((fail_pending m ids p).pending ≡ p.pending)
      × ((fail_pending m ids p).next_message_id ≡ p.next_message_id)
unfolding fail_pending has lookup
fail_pending_lem m [] p = (λ id. refl, refl, refl)
fail_pending_lem m ((k, u) ∷ ids) p =
    let r = error_response "" p.instrument_name m in
    let rest = fail_pending_lem m ids (record p { resolved = insert k r p.resolved }) in
    (λ id. ground (arith, rest.0 id, lookup-insert k id r p.resolved), rest.1, rest.2)

drained-IsValid :
    (m : String) (p : Proxy)
    → IsValid p
    → IsValid (record (fail_pending m p.pending p) { pending = [] })
unfolding has lookup
drained-IsValid m p v = record {
  unique = tt;
  once = λ id. refl;
  kept = λ id.
      ground (
        arith,
        (fail_pending_lem m p.pending p).0 id,
        v.kept id,
        (fail_pending_lem m p.pending p).2,
      );
  from_one = omega (arith, (fail_pending_lem m p.pending p).2, v.from_one);
}

cleanup-IsValid : (p : Proxy) → IsValid p → IsValid (cleanup_pending_promises p)
unfolding cleanup_pending_promises
cleanup-IsValid p v = drained-IsValid "Worker stopped" p v

-- A proxy that differs in its flags alone.
pub flags-IsValid :
    (p : Proxy) (on open_ : Bool)
    → IsValid p
    → IsValid (record p { running = on; queue_open = open_ })
flags-IsValid p on open_ v = record {
  unique = v.unique;
  once = v.once;
  kept = v.kept;
  from_one = v.from_one;
}

stop-IsValid : (p : Proxy) → IsValid p → IsValid (stop p)
unfolding stop
stop-IsValid p v = elim (Bool-cases p.running) [
  | inl on ↦
      let w =
        cleanup-IsValid (record p { running = false }) (flags-IsValid p false p.queue_open v) in
      simp on (record { unique = w.unique; once = w.once; kept = w.kept; from_one = w.from_one })
  | inr off ↦ simp off v
]

-- What `start` can leave behind.
pub start-cases :
    (a b c : Bool) (p q : Proxy)
    → map_option (λ r. r.1) (start a b c p) ≡ some q
    → (p ≡ q)
      ⊎ ((record p { queue_open = true } ≡ q)
          ⊎ ((record p { queue_open = true; running = true } ≡ q)
              ⊎ (stop (record p { queue_open = true; running = true }) ≡ q)))
unfolding start
start-cases false b c p q h = inl (some_inj h)
start-cases true false c p q h = inr (inl (some_inj h))
start-cases true true c p q h = elim (Bool-cases p.running) [
  | inl on ↦ ground (arith, h, on)
  | inr off ↦ inr (inr (begun c (ground (arith, h, off))))
]
  where
    begun :
        (c : Bool)
        → (if not c
            then some (stop (record p { queue_open = true; running = true }))
            else some (record p { queue_open = true; running = true }))
          ≡ some q
        → (record p { queue_open = true; running = true } ≡ q)
          ⊎ (stop (record p { queue_open = true; running = true }) ≡ q)
    begun true e = inl (some_inj e)
    begun false e = inr (some_inj e)

start-IsValid :
    (a b c : Bool) (p q : Proxy)
    → IsValid p
    → map_option (λ r. r.1) (start a b c p) ≡ some q
    → IsValid q
start-IsValid a b c p q v h = elim (start-cases a b c p q h) [
  | inl e ↦ subst IsValid e v
  | inr (inl e) ↦ subst IsValid e (flags-IsValid p p.running true v)
  | inr (inr (inl e)) ↦ subst IsValid e (flags-IsValid p true true v)
  | inr (inr (inr e)) ↦ subst IsValid e (stop-IsValid _ (flags-IsValid p true true v))
]

finish_sync-IsValid :
    (T : JsonText) (id : ℕ) (moved_id : String) (p : Proxy)
    → IsValid p
    → IsValid (finish_sync T id moved_id p).1
unfolding finish_sync count_timeout
finish_sync-IsValid T id moved_id p v = elim (Option-cases (lookup id p.resolved)) [
  | inl e ↦
      rw (e, finish_sync)
        (record { unique = v.unique; once = v.once; kept = v.kept; from_one = v.from_one })
  | inr (r, e) ↦ rw (e, finish_sync) v
]

response-IsValid :
    (T : JsonText) (p q : Proxy) (msg : IpcMessage T)
    → IsValid p
    → handle_response_message T p msg ≡ some q
    → IsValid q
unfolding handle_response_message
response-IsValid T p q msg v h =
    let (resp, _, e) = >>=-eq-some (deserialize_response T msg.payload) _ h in
    elim (Bool-cases (has msg.id p.pending)) [
      | inl known ↦
          subst IsValid (done resp known e)
            (count_done-IsValid resp.success _ (resolve-IsValid msg.id resp p known v))
      | inr other ↦ subst IsValid (ignored resp other e) v
    ]
  where
    done :
        (resp : CommandResponse)
        → has msg.id p.pending ≡ true
        → some (if has msg.id p.pending then count_done resp.success (resolve msg.id resp p) else p)
          ≡ some q
        → count_done resp.success (resolve msg.id resp p) ≡ q
    done resp known e = ground arith

    ignored :
        (resp : CommandResponse)
        → has msg.id p.pending ≡ false
        → some (if has msg.id p.pending then count_done resp.success (resolve msg.id resp p) else p)
          ≡ some q
        → p ≡ q
    ignored resp other e = ground arith

pub open_request-has : (p : Proxy) → has p.next_message_id (open_request p).pending ≡ true
unfolding open_request has
open_request-has p = ground (
  arith,
  lookup-insert p.next_message_id p.next_message_id tt p.pending,
  nat_eqb_iff p.next_message_id p.next_message_id,
)

end_send-IsValid :
    (sent : Bool) (msg_id : ℕ) (p : Proxy) → IsValid p → IsValid (end_send sent msg_id p)
unfolding end_send fail_request
end_send-IsValid true msg_id p v = count_sent-IsValid p v
end_send-IsValid false msg_id p v = elim (Bool-cases (has msg_id p.pending)) [
  | inl there ↦ rw there (resolve-IsValid msg_id _ p there v)
  | inr gone ↦ rw gone v
]

-- What is behind a `sends` that has not ended the process.
pub sends-after :
    (T : JsonText) (sent : Bool) (msg_id : ℕ) (p q : Proxy)
    → step T p (sends sent msg_id) ≡ some q
    → end_send sent msg_id p ≡ q
unfolding step
sends-after T sent msg_id p q h = by_queue p.queue_open h
  where
    by_queue :
        (b : Bool)
        → (if b then some (end_send sent msg_id p) else none) ≡ some q
        → end_send sent msg_id p ≡ q
    by_queue true e = some_inj e
    by_queue false e = cc

-- The ids left before the 64-bit counter of messages would come round.
abbrev pub HasRoom : Proxy → Type 0
HasRoom p = p.next_message_id + 1 < 2 ^ 64

-- Each event keeps every issued command either pending or answered, and never both: no future is lost,
-- and none is fulfilled twice.
pub step-IsValid :
    (T : JsonText) (p q : Proxy) (e : Event T)
    → IsValid p
    → HasRoom p
    → step T p e ≡ some q
    → IsValid q
unfolding step handle_worker_death
step-IsValid T p q (starts a b c) v room h = start-IsValid a b c p q v h
step-IsValid T p q opens v room h = subst IsValid (some_inj h) (open_request-IsValid p v room)
step-IsValid T p q (sends sent msg_id) v room h =
    subst IsValid (sends-after T sent msg_id p q h) (end_send-IsValid sent msg_id p v)
step-IsValid T p q (finishes_sync id moved_id) v room h =
    subst IsValid (some_inj h) (finish_sync-IsValid T id moved_id p v)
step-IsValid T p q (responds msg) v room h = response-IsValid T p q msg v h
step-IsValid T p q worker_dies v room h =
    subst IsValid (some_inj h) (drained-IsValid "Worker process died" p v)
step-IsValid T p q stops v room h = subst IsValid (some_inj h) (stop-IsValid p v)
