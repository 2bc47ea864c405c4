-- ===== src/Proxy/Futures.antt =====
-- src/server/InstrumentWorkerProxy.cpp: the futures that `execute` hands out, over whole runs.
use instrument_script_server.Proxy.{
  Proxy, stop, step, Event, JsonText, cleanup_pending_promises, handle_worker_death, start,
  finish_sync, count_timeout, handle_response_message, starts, opens, sends, end_send, fail_request,
  finishes_sync, responds, worker_dies, stops, open_request, count_sent, count_done, resolve,
  IpcMessage, deserialize_response, CommandResponse, fail_pending, error_response, run, new_proxy,
}
use instrument_script_server.Proxy.Invariant.{
  HasRoom, sends-after, fail_pending_lem, IsValid, flags-IsValid, issued, new_proxy-IsValid,
  answered, step-IsValid, start-cases,
}
use Prim.Native.String.{◌++◌}
use instrument_script_server.Base.{
  to_decimal, some_inj, [], if◌then◌else◌, ℕ, ◌+◌, ◌<◌, ◌≤◌, ◌≡◌, ◌^◌, arith, some, true, false,
  >>=-eq-some, Bool, String, has, lookup, lookup-insert, nat_eqb_iff, nat_key, subst, List, length,
  ◌∷◌, map_option, inl, inr, ap, sym, ◌∙◌, refl,
}

-- An event uses up at most one message id.
end_send-next_message_id :
    (sent : Bool) (msg_id : ℕ) (p : Proxy)
    → (end_send sent msg_id p).next_message_id ≡ p.next_message_id
unfolding end_send fail_request count_sent resolve
end_send-next_message_id true msg_id p = refl
end_send-next_message_id false msg_id p = ground arith

stop-next_message_id : (p : Proxy) → (stop p).next_message_id ≡ p.next_message_id
unfolding stop cleanup_pending_promises
stop-next_message_id p =
    let h = fail_pending_lem "Worker stopped" p.pending (record p { running = false }) in
    ground (arith, h.2)

start-next_message_id :
    (a b c : Bool) (p q : Proxy)
    → map_option (λ r. r.1) (start a b c p) ≡ some q
    → q.next_message_id ≡ p.next_message_id
start-next_message_id a b c p q h = elim (start-cases a b c p q h) [
  | inl e ↦ cc
  | inr (inl e) ↦ ap (λ r. r.next_message_id) (sym e)
  | inr (inr (inl e)) ↦ ap (λ r. r.next_message_id) (sym e)
  | inr (inr (inr e)) ↦ ap (λ r. r.next_message_id) (sym e) ∙ stop-next_message_id _
]

finish_sync-next_message_id :
    (T : JsonText) (id : ℕ) (moved_id : String) (p : Proxy)
    → (finish_sync T id moved_id p).1.next_message_id ≡ p.next_message_id
unfolding finish_sync count_timeout
finish_sync-next_message_id T id moved_id p = ground arith

response-next_message_id :
    (T : JsonText) (p q : Proxy) (msg : IpcMessage T)
    → handle_response_message T p msg ≡ some q
    → q.next_message_id ≡ p.next_message_id
unfolding handle_response_message resolve count_done
response-next_message_id T p q msg h =
    let (resp, _, e) = >>=-eq-some (deserialize_response T msg.payload) _ h in ground (arith, e)

pub step-next_message_id :
    (T : JsonText) (p q : Proxy) (e : Event T)
    → HasRoom p
    → step T p e ≡ some q
    → q.next_message_id ≤ p.next_message_id + 1
unfolding step handle_worker_death open_request
step-next_message_id T p q (starts a b c) room h = ground (arith, start-next_message_id a b c p q h)
step-next_message_id T p q opens room h = ground (arith, h)
step-next_message_id T p q (sends sent msg_id) room h =
    ground (arith, sends-after T sent msg_id p q h, end_send-next_message_id sent msg_id p)
step-next_message_id T p q (finishes_sync id moved_id) room h =
    ground (arith, h, finish_sync-next_message_id T id moved_id p)
step-next_message_id T p q (responds msg) room h =
    ground (arith, response-next_message_id T p q msg h)
step-next_message_id T p q worker_dies room h =
    ground (arith, h, fail_pending_lem "Worker process died" p.pending p)
step-next_message_id T p q stops room h = ground (arith, h, stop-next_message_id p)

-- An answer stays the answer.
abbrev pub Keeps : Proxy → Proxy → Type 0
Keeps p q =
    (id : ℕ) (r : CommandResponse) → lookup id p.resolved ≡ some r → lookup id q.resolved ≡ some r

-- Nothing pending has an answer yet.
pending-unanswered :
    (p : Proxy) (id : ℕ) (r : CommandResponse)
    → IsValid p
    → lookup id p.resolved ≡ some r
    → has id p.pending ≡ false
unfolding has
pending-unanswered p id r v h = ground (arith, v.once id, h)

end_send-Keeps :
    (sent : Bool) (msg_id : ℕ) (p : Proxy) → IsValid p → Keeps p (end_send sent msg_id p)
unfolding end_send fail_request count_sent resolve has
end_send-Keeps true msg_id p v id r h = h
end_send-Keeps false msg_id p v id r h = ground (
  arith,
  h,
  pending-unanswered p id r v h,
  lookup-insert msg_id id
      (error_response (p.instrument_name ++ "-" ++ to_decimal msg_id) p.instrument_name
        "IPC send timeout")
      p.resolved,
  nat_eqb_iff msg_id id,
)

drained-Keeps : (m : String) (p : Proxy) → IsValid p → Keeps p (fail_pending m p.pending p)
drained-Keeps m p v id r h =
    ground (arith, pending-unanswered p id r v h, (fail_pending_lem m p.pending p).0 id, h)

stop-Keeps : (p : Proxy) → IsValid p → Keeps p (stop p)
unfolding stop cleanup_pending_promises
stop-Keeps p v id r h = ground (
  arith,
  pending-unanswered p id r v h,
  (fail_pending_lem "Worker stopped" p.pending (record p { running = false })).0 id,
  h,
)

start-Keeps :
    (a b c : Bool) (p q : Proxy)
    → IsValid p
    → map_option (λ r. r.1) (start a b c p) ≡ some q
    → Keeps p q
start-Keeps a b c p q v h = elim (start-cases a b c p q h) [
  | inl e ↦ subst (Keeps p) e (λ id r k. k)
  | inr (inl e) ↦ subst (Keeps p) e (λ id r k. k)
  | inr (inr (inl e)) ↦ subst (Keeps p) e (λ id r k. k)
  | inr (inr (inr e)) ↦ subst (Keeps p) e (stop-Keeps _ (flags-IsValid p true true v))
]

finish_sync-resolved :
    (T : JsonText) (msg_id : ℕ) (moved_id : String) (p : Proxy)
    → (finish_sync T msg_id moved_id p).1.resolved ≡ p.resolved
unfolding finish_sync count_timeout
finish_sync-resolved T msg_id moved_id p = ground arith

response-Keeps :
    (T : JsonText) (p q : Proxy) (msg : IpcMessage T)
    → IsValid p
    → handle_response_message T p msg ≡ some q
    → Keeps p q
unfolding handle_response_message resolve count_done has
response-Keeps T p q msg v e id r h =
    let (resp, _, e') = >>=-eq-some (deserialize_response T msg.payload) _ e in
    ground (
      arith,
      e',
      h,
      pending-unanswered p id r v h,
      lookup-insert msg.id id resp p.resolved,
      nat_eqb_iff msg.id id,
    )

step-Keeps :
    (T : JsonText) (p q : Proxy) (e : Event T) → IsValid p → step T p e ≡ some q → Keeps p q
unfolding step handle_worker_death open_request
step-Keeps T p q (starts a b c) v h = start-Keeps a b c p q v h
step-Keeps T p q opens v h = subst (Keeps p) (some_inj h) (λ id r k. k)
step-Keeps T p q (sends sent msg_id) v h =
    subst (Keeps p) (sends-after T sent msg_id p q h) (end_send-Keeps sent msg_id p v)
step-Keeps T p q (finishes_sync id moved_id) v h =
    λ n r e. ground (arith, h, e, finish_sync-resolved T id moved_id p)
step-Keeps T p q (responds msg) v h = response-Keeps T p q msg v h
step-Keeps T p q worker_dies v h =
    subst (Keeps p) (some_inj h) (drained-Keeps "Worker process died" p v)
step-Keeps T p q stops v h = subst (Keeps p) (some_inj h) (stop-Keeps p v)

-- A run that the 64-bit counter has room for.
run-carries :
    (T : JsonText) (p q : Proxy) (es : List (Event T))
    → IsValid p
    → p.next_message_id + length es < 2 ^ 64
    → run T p es ≡ some q
    → IsValid q × Keeps p q
unfolding run
run-carries T p q [] v room h =
    (subst IsValid (some_inj h) v, subst (Keeps p) (some_inj h) (λ id r e. e))
run-carries T p q (e ∷ es) v room h =
    let (m, he, hs) = >>=-eq-some (step T p e) _ h in
    let here : p.next_message_id + 1 < 2 ^ 64 = ground (arith, room) in
    let next = step-next_message_id T p m e here he in
    let (w, k) =
      run-carries T m q es (step-IsValid T p m e v here he) (ground (arith, room, next)) hs in
    (w, λ id r h'. k id r (step-Keeps T p m e v he id r h'))

-- After any run of a new proxy, of any events but fewer than 2 ^ 64 - 1, each id that has been issued is
-- either pending or answered, no other id is, and no id is both.
pub run-new_proxy-IsValid :
    (T : JsonText) (name : String) (es : List (Event T)) (p : Proxy)
    → length es + 1 < 2 ^ 64
    → run T (new_proxy name) es ≡ some p
    → IsValid p
run-new_proxy-IsValid T name es p room h =
    (run-carries T (new_proxy name) p es (new_proxy-IsValid name) (ground (arith, room)) h).0

-- Once a future has its answer, no later events change it: in a run of fewer than 2 ^ 64 - 1 events, the
-- answer that an id has after the first part is the answer it has at the end.
pub run-keeps_answers :
    (T : JsonText) (name : String) (before later : List (Event T)) (p q : Proxy) (id : ℕ)
    (r : CommandResponse)
    → length before + 1 < 2 ^ 64
    → p.next_message_id + length later < 2 ^ 64
    → run T (new_proxy name) before ≡ some p
    → run T p later ≡ some q
    → lookup id p.resolved ≡ some r
    → lookup id q.resolved ≡ some r
run-keeps_answers T name before later p q id r room room' h h' e =
    (run-carries T p q later (run-new_proxy-IsValid T name before p room h) room' h').1 id r e

-- When a running proxy is stopped, after any run of fewer than 2 ^ 64 - 1 events, every id it has issued
-- has an answer: one that was pending gets the error "Worker stopped", any other keeps its answer.
pub stop-answers_all :
    (T : JsonText) (name : String) (es : List (Event T)) (p : Proxy) (id : ℕ)
    → length es + 1 < 2 ^ 64
    → run T (new_proxy name) es ≡ some p
    → p.running ≡ true
    → issued id p ≡ true
    → (answered id (stop p) ≡ true)
      × (lookup id (stop p).resolved ≡ (
          if has id p.pending
          then some (error_response "" p.instrument_name "Worker stopped")
          else lookup id p.resolved))
unfolding stop cleanup_pending_promises has
stop-answers_all T name es p id room h on known =
    let v = run-new_proxy-IsValid T name es p room h in
    let all = (fail_pending_lem "Worker stopped" p.pending (record p { running = false })).0 id in
    (ground (arith, v.kept id, known, on, all), ground (arith, all, on))
