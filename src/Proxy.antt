-- ===== src/Proxy.antt =====
-- src/server/InstrumentWorkerProxy.cpp: the server's side of one worker. A promise and its future
-- are one entry under the message's id: in `pending` until it is fulfilled, then in `resolved`.
-- Whether a queue accepts a message in time is an argument of the step that sends it. `none` is the
-- end of the server process: an exception in the listener thread, or a call through a null queue.
pub mod Invariant
pub mod Futures
pub mod Sections
pub mod RoundTrip
mod Tests
use Prim.Native.String.{◌++◌}
use instrument_script_server.Base.{
  ℕ, zero, suc, ◌+◌, ◌-◌, ◌%◌, ◌^◌, String, Bool, true, false, Option, none, some, List, [], ◌∷◌,
  Dict, lookup, has, insert, erase, if◌then◌else◌, ◌>>=◌, string_key, nat_key, is_some, to_decimal,
  map_option, not,
}
use instrument_script_server.Json.Codec.{JsonText}
use instrument_script_server.Ipc.{
  IpcMessage, MessageType, command, response, heartbeat, shutdown, sync_ack, sync_continue,
  fit_payload,
}
use instrument_script_server.Wire.{
  SerializedCommand, CommandResponse, new_response, serialize_command, deserialize_response,
}
use instrument_script_server.Sync.{SyncCoordinator, handle_ack}
use instrument_script_server.Worker.{token_or_zero}

pub record Stats : Type 0 where
  pub commands_sent : ℕ
  pub commands_completed : ℕ
  pub commands_failed : ℕ
  pub commands_timeout : ℕ

pub record Proxy : Type 0 where
  pub instrument_name : String
  pub running : Bool
  -- ipc_queue_ is not null
  pub queue_open : Bool
  pub next_message_id : ℕ
  pub pending : Dict ℕ (Unit {0})
  pub resolved : Dict ℕ CommandResponse
  pub stats : Stats

-- A proxy as its constructor makes it, and after a `start` that succeeds.
abbrev pub new_proxy : String → Proxy
new_proxy name = record {
  instrument_name = name;
  running = false;
  queue_open = false;
  next_message_id = 1;
  pending = [];
  resolved = [];
  stats = record {
    commands_sent = 0;
    commands_completed = 0;
    commands_failed = 0;
    commands_timeout = 0;
  };
}

abbrev pub error_response : String → String → String → CommandResponse
error_response id name message = record new_response {
  command_id = id;
  instrument_name = name;
  success = false;
  error_message = message;
}

-- promise.set_value
unfoldable pub resolve : ℕ → CommandResponse → Proxy → Proxy
resolve msg_id resp p = record p {
  pending = erase msg_id p.pending;
  resolved = insert msg_id resp p.resolved;
}

unfoldable pub count_sent : Proxy → Proxy
count_sent p = record p { stats = record (p.stats) { commands_sent = p.stats.commands_sent + 1 } }

unfoldable pub count_done : Bool → Proxy → Proxy
count_done true p = record p {
  stats = record (p.stats) { commands_completed = p.stats.commands_completed + 1 };
}
count_done false p = record p {
  stats = record (p.stats) { commands_failed = p.stats.commands_failed + 1 };
}

-- The id that `execute` gives a command.
unfoldable pub command_id : Proxy → String
command_id p = p.instrument_name ++ "-" ++ to_decimal p.next_message_id

-- `execute` up to the send: the promise is stored.
unfoldable pub open_request : Proxy → Proxy
open_request p = record p {
  next_message_id = (p.next_message_id + 1) % 2 ^ 64;
  pending = insert p.next_message_id tt p.pending;
}

-- A promise for every pending command, fulfilled with one error.
unfoldable pub fail_pending : String → Dict ℕ (Unit {0}) → Proxy → Proxy
fail_pending message [] p = p
fail_pending message ((msg_id, _) ∷ ids) p =
    fail_pending message ids (record p {
      resolved = insert msg_id (error_response "" p.instrument_name message) p.resolved;
    })

unfoldable pub cleanup_pending_promises : Proxy → Proxy
cleanup_pending_promises p = record (fail_pending "Worker stopped" p.pending p) { pending = [] }

unfoldable pub handle_worker_death : Proxy → Proxy
handle_worker_death p = record (fail_pending "Worker process died" p.pending p) { pending = [] }

unfoldable pub stop : Proxy → Proxy
stop p =
    if p.running
    then record (cleanup_pending_promises (record p { running = false })) { queue_open = false }
    else p

-- `start`, with what creating the queue, spawning and the later check of the process gave. A running
-- proxy has a joinable thread, and assigning to that ends the process.
unfoldable pub start : Bool → Bool → Bool → Proxy → Option (Bool × Proxy)
start queue_made spawned alive p =
    let opened = record p { queue_open = true } in
    let begun = record p { queue_open = true; running = true } in
    if not queue_made
    then some (false, p)
    else if not spawned
    then some (false, opened)
    else if p.running
    then none
    else if not alive
    then some (false, stop begun)
    else some (true, begun)

-- The section of `execute` behind a send that has failed: the response may have come, or the promise gone.
unfoldable pub fail_request : ℕ → Proxy → Proxy
fail_request msg_id p =
    if has msg_id p.pending
    then resolve msg_id
        (error_response (p.instrument_name ++ "-" ++ to_decimal msg_id) p.instrument_name
          "IPC send timeout")
        p
    else p

unfoldable pub end_send : Bool → ℕ → Proxy → Proxy
end_send sent msg_id p = if sent then count_sent p else fail_request msg_id p

module _ (J : JsonText) where
  unfoldable pub command_message : Proxy → SerializedCommand → IpcMessage J
  command_message p cmd = record {
    type = command;
    id = p.next_message_id;
    sync_token = token_or_zero cmd.sync_token;
    payload = fit_payload J (serialize_command J (record cmd { id = command_id p }));
  }

  -- The message is offered to the queue; `sent` is what `send` returns. This is `execute` without another thread
  -- between its sections, which the events of a run tell apart.
  unfoldable pub execute : Bool → Proxy → SerializedCommand → Option (IpcMessage J × Proxy)
  execute sent p cmd =
      let failed = error_response (command_id p) p.instrument_name "IPC send timeout" in
      let after_send =
        if sent
        then count_sent (open_request p)
        else resolve p.next_message_id failed (open_request p) in
      if p.queue_open then some (command_message p cmd, after_send) else none

  unfoldable pub count_timeout : Proxy → Proxy
  count_timeout p = record p {
    stats = record (p.stats) { commands_timeout = p.stats.commands_timeout + 1 };
  }

  -- `execute_sync` once the wait is over: the answer, or the error if none has come. The error is given
  -- the id of a command that has been moved away: `moved_id` is what the standard leaves open.
  unfoldable pub finish_sync : ℕ → String → Proxy → CommandResponse × Proxy
  finish_sync msg_id moved_id p = elim (lookup msg_id p.resolved) [
    | some resp ↦ (resp, p)
    | none ↦ (error_response moved_id p.instrument_name "Command timeout", count_timeout p)
  ]

  unfoldable pub handle_response_message : Proxy → IpcMessage J → Option Proxy
  handle_response_message p msg = do
    resp ← deserialize_response J msg.payload
    some (if has msg.id p.pending then count_done resp.success (resolve msg.id resp p) else p)

  unfoldable pub continue_message : ℕ → IpcMessage J
  continue_message sync_token = record {
    type = sync_continue;
    id = 0;
    sync_token = sync_token;
    payload = J.empty;
  }

  unfoldable pub send_sync_continue : Proxy → ℕ → List (IpcMessage J)
  send_sync_continue p sync_token = if p.queue_open then continue_message sync_token ∷ [] else []

  unfoldable pub handle_sync_ack_message :
      Proxy → IpcMessage J → SyncCoordinator → SyncCoordinator × List (IpcMessage J)
  handle_sync_ack_message p msg c =
      let (complete, c') = handle_ack msg.sync_token p.instrument_name c in
      (c', if complete then send_sync_continue p msg.sync_token else [])

  -- What `stop` sends first.
  unfoldable pub send_shutdown_message : Proxy → List (IpcMessage J)
  send_shutdown_message p =
      if p.queue_open
      then record { type = shutdown; id = 0; sync_token = 0; payload = J.empty } ∷ []
      else []

  -- A message from the worker: the coordinator is shared by all proxies. Heartbeats go to the
  -- process manager.
  abbrev pub by_type :
      Proxy
      → SyncCoordinator
      → IpcMessage J
      → MessageType
      → Option (Proxy × SyncCoordinator × List (IpcMessage J))
  by_type p c msg response = do p' ← handle_response_message p msg; some (p', c, [])
  by_type p c msg sync_ack = let done = handle_sync_ack_message p msg c in some (p, done.0, done.1)
  by_type p c msg _ = some (p, c, [])

  unfoldable pub handle_ipc_message :
      Proxy
      → SyncCoordinator
      → IpcMessage J
      → Option (Proxy × SyncCoordinator × List (IpcMessage J))
  handle_ipc_message p c msg = by_type p c msg msg.type

  -- What can happen to a proxy after its constructor. A step in which the process ends has no result. `execute`
  -- is two events, between which other threads may run: `opens` takes an id and stores the promise, and
  -- `sends`, with what `send` returned for an id, counts the command or fails its promise.
  pub data Event : Type 0 where
    starts : Bool → Bool → Bool → Event
    opens : Event
    sends : Bool → ℕ → Event
    finishes_sync : ℕ → String → Event
    responds : IpcMessage J → Event
    worker_dies : Event
    stops : Event

  unfoldable pub step : Proxy → Event → Option Proxy
  step p (starts queue_made spawned alive) =
      map_option (λ r. r.1) (start queue_made spawned alive p)
  step p opens = some (open_request p)
  step p (sends sent msg_id) = if p.queue_open then some (end_send sent msg_id p) else none
  step p (finishes_sync msg_id moved_id) = some (finish_sync msg_id moved_id p).1
  step p (responds msg) = handle_response_message p msg
  step p worker_dies = some (handle_worker_death p)
  step p stops = some (stop p)

  unfoldable pub run : Proxy → List Event → Option Proxy
  run p [] = some p
  run p (e ∷ es) = step p e >>= λ p'. run p' es
