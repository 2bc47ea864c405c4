-- ===== src/Worker.antt =====
-- src/workers/generic_worker_main.cpp: the worker process of one instrument. A handler returns the new
-- worker and the messages that it offers to the response queue, in order (what `send` returns is
-- not looked at); `none` is an exception, which `main` catches and ends the process with status 1.
pub mod Abi
mod Loop
pub mod Barrier
pub mod Replies
mod Tests
use instrument_script_server.Base.{
  ℕ, zero, suc, ◌+◌, ◌-◌, String, Bool, true, false, Option, none, some, List, [], ◌∷◌, ◌++◌, ◌==◌,
  leb, nat_eqb, if◌then◌else◌, ◌>>=◌, string_key, is_some,
}
use instrument_script_server.Json.Codec.{JsonText}
use instrument_script_server.Ipc.{
  IpcMessage, MessageType, command, response, heartbeat, shutdown, sync_ack, sync_continue,
  fit_payload,
}
use instrument_script_server.Wire.{
  SerializedCommand, CommandResponse, serialize_response, deserialize_command,
}
use Abi.{
  Plugin, PluginResponse, zero_response, copy_text, plugin_max_string_len, plugin_max_payload,
  to_plugin_command, from_plugin_response,
}

abbrev pub heartbeat_interval : ℕ
heartbeat_interval = 500

abbrev pub barrier_nop : String
barrier_nop = "__BARRIER_NOP__"

abbrev pub token_or_zero : Option ℕ → ℕ
token_or_zero none = 0
token_or_zero (some t) = t

module _ (J : JsonText) (P : Plugin) where
  -- The members of `Instrument` and the global `g_running`.
  pub record Worker : Type 0 where
    pub instrument_name : String
    pub running : Bool
    pub waiting_sync_token : Option ℕ
    pub last_heartbeat : ℕ
    pub plugin : P.State

  abbrev pub Outcome : Type 0
  Outcome = Option (Worker × List (IpcMessage J))

  -- The answer to a synthetic command, which the plugin never sees.
  unfoldable pub nop_response : SerializedCommand → PluginResponse
  nop_response cmd = record zero_response {
    success = true;
    command_id = copy_text (plugin_max_string_len - 1) cmd.id;
    instrument_name = copy_text (plugin_max_string_len - 1) cmd.instrument_name;
    text_response = copy_text (plugin_max_payload - 1) "BARRIER_NOP";
  }

  unfoldable pub run_command : P.State → SerializedCommand → P.State × PluginResponse
  run_command s cmd =
      if cmd.verb == barrier_nop
      then (s, nop_response cmd)
      else P.execute_command s (to_plugin_command cmd) zero_response

  unfoldable pub command_response : IpcMessage J → SerializedCommand → PluginResponse → IpcMessage J
  command_response msg cmd plugin_resp = record {
    type = response;
    id = msg.id;
    sync_token = token_or_zero cmd.sync_token;
    payload = fit_payload J (serialize_response J (from_plugin_response plugin_resp));
  }

  unfoldable pub sync_ack_of : IpcMessage J → ℕ → IpcMessage J
  sync_ack_of msg sync_token = record {
    type = sync_ack;
    id = msg.id;
    sync_token = sync_token;
    payload = J.empty;
  }

  abbrev pub acks_of : IpcMessage J → Option ℕ → List (IpcMessage J)
  acks_of msg none = []
  acks_of msg (some t) = sync_ack_of msg t ∷ []

  -- Only the last command of a token blocks the worker.
  abbrev pub wait_after : SerializedCommand → Option ℕ → Option ℕ → Option ℕ
  wait_after cmd none old = old
  wait_after cmd (some t) old = if cmd.is_sync_barrier then some t else old

  unfoldable pub handle_command : Worker → IpcMessage J → Outcome
  handle_command w msg = do
    cmd ← deserialize_command J msg.payload
    let ran = run_command w.plugin cmd
    some (
      record w {
        plugin = ran.0;
        waiting_sync_token = wait_after cmd cmd.sync_token w.waiting_sync_token;
      },
      command_response msg cmd ran.1 ∷ acks_of msg cmd.sync_token,
    )

  abbrev pub continue_with : ℕ → Option ℕ → Option ℕ
  continue_with t none = none
  continue_with t (some u) = if nat_eqb t u then none else some u

  unfoldable pub handle_sync_continue : Worker → IpcMessage J → Worker
  handle_sync_continue w msg = record w {
    waiting_sync_token = continue_with msg.sync_token w.waiting_sync_token;
  }

  unfoldable pub handle_shutdown : Worker → Worker
  handle_shutdown w = record w { running = false }

  abbrev pub by_type : Worker → IpcMessage J → MessageType → Outcome
  by_type w msg shutdown = some (handle_shutdown w, [])
  by_type w msg sync_continue = some (handle_sync_continue w msg, [])
  by_type w msg command =
      if is_some w.waiting_sync_token then some (w, []) else handle_command w msg
  by_type w msg _ = some (w, [])

  unfoldable pub process_message : Worker → IpcMessage J → Outcome
  process_message w msg = by_type w msg msg.type

  unfoldable pub heartbeat_message : IpcMessage J
  heartbeat_message = record { type = heartbeat; id = 0; sync_token = 0; payload = J.empty }

  -- `now` is the time of the steady clock, in milliseconds.
  unfoldable pub send_heartbeat_if_needed : ℕ → Worker → Worker × List (IpcMessage J)
  send_heartbeat_if_needed now w =
      if leb heartbeat_interval (now - w.last_heartbeat)
      then (record w { last_heartbeat = now }, heartbeat_message ∷ [])
      else (w, [])

  -- Messages offered before those of an outcome.
  abbrev pub after : List (IpcMessage J) → Outcome → Outcome
  after out none = none
  after out (some (w, later)) = some (w, out ++ later)

  -- One round of `main_loop`: the time, and what `receive` returned.
  unfoldable pub loop_round : Worker → ℕ × Option (IpcMessage J) → Outcome
  loop_round w (now, none) = some (send_heartbeat_if_needed now w)
  loop_round w (now, some msg) =
      let beat = send_heartbeat_if_needed now w in after beat.1 (process_message beat.0 msg)

  -- The loop over the rounds of a run, left once `g_running` is false.
  unfoldable pub main_loop : Worker → List (ℕ × Option (IpcMessage J)) → Outcome
  main_loop w [] = some (w, [])
  main_loop w (r ∷ rs) =
      let rest = loop_round w r >>= λ here. after here.1 (main_loop here.0 rs) in
      if w.running then rest else some (w, [])
