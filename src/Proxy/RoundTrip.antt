-- ===== src/Proxy/RoundTrip.antt =====
-- A command from the proxy through the worker and back to its future.
use Prim.Native.String.{slice}
use instrument_script_server.Base.{
  ap, ◌∙◌, has, lookup-insert, nat_eqb_iff, ◌≤◌, ◌<◌, ◌^◌, String, ◌≡◌, refl, true, false, some,
  none, List, [], ◌∷◌, ℕ, zero, suc, map, take, arith, lookup, Unique, Values, Dict, string_key,
  nat_key, ◌>>=◌,
}
use instrument_script_server.Json.Codec.{JsonText}
use instrument_script_server.Ipc.{IpcMessage, ipc_max_payload, command}
use instrument_script_server.Wire.{
  SerializedCommand, CommandResponse, ParamValue, double, int64, string, bool, doubles,
  serialize_command, serialize_response, deserialize_command, deserialize_response,
}
use instrument_script_server.Wire.Params.{ArrayFinite, keep}
use instrument_script_server.Wire.Commands.{TokenFits, command_arrives}
use instrument_script_server.Wire.Responses.{ValueFinite, without_stale_buffer, response_arrives}
use instrument_script_server.Worker.Abi.{
  Plugin, from_plugin_response, to_plugin_command, to_plugin_params, to_plugin_value, copy_text,
  PluginParamValue, param_none, param_int64, param_double, param_bool, param_string,
}
use instrument_script_server.Worker.{
  wait_after, acks_of, Worker, process_message, handle_command, run_command, command_response,
}
use instrument_script_server.Proxy.Invariant.{open_request-has}
use instrument_script_server.Proxy.{
  count_done, resolve, open_request, count_sent, Proxy, execute, command_message, command_id,
  handle_response_message,
}

module _ (J : JsonText) (P : Plugin) where
  -- The command as the worker has it, with the parameters that arrived.
  abbrev pub arrived : Proxy → SerializedCommand → Dict String ParamValue → SerializedCommand
  arrived p cmd ps = record cmd { id = command_id p; params = ps; is_sync_barrier = false }

  -- What the plugin makes of it.
  abbrev pub plugin_answer :
      Proxy → Worker J P → SerializedCommand → Dict String ParamValue → CommandResponse
  plugin_answer p w cmd ps = from_plugin_response (run_command J P w.plugin (arrived p cmd ps)).1

  -- How the plugin sees a value: arrays have no type of their own, texts are cut.
  abbrev pub shown : ParamValue → PluginParamValue
  shown (double d) = param_double d
  shown (int64 z) = param_int64 z
  shown (string s) = param_string (slice s 0 127)
  shown (bool b) = param_bool b
  shown (doubles ds) = param_none

  abbrev pub seen : String × ParamValue → String × PluginParamValue
  seen (k, v) = (slice k 0 127, shown v)

  shown_lem : (v : ParamValue) → to_plugin_value v ≡ shown v
  unfolding to_plugin_value copy_text
  shown_lem (double d) = refl
  shown_lem (int64 z) = refl
  shown_lem (string s) = refl
  shown_lem (bool b) = refl
  shown_lem (doubles ds) = refl

  to_plugin_params-seen :
      (n : ℕ) (ps : Dict String ParamValue) → to_plugin_params n ps ≡ map seen (take n ps)
  unfolding to_plugin_params copy_text
  to_plugin_params-seen zero ps = refl
  to_plugin_params-seen (suc n) [] = refl
  to_plugin_params-seen (suc n) ((k, v) ∷ ps) =
      ap (λ x. (slice k 0 127, x) ∷ to_plugin_params n ps) (shown_lem v)
      ∙ ap (λ xs. seen (k, v) ∷ xs) (to_plugin_params-seen n ps)

  -- A response that a message carries whole.
  pub record Carried (resp : CommandResponse) : Type 0 where
    pub value : ValueFinite resp.return_value
    pub count : resp.element_count < 2 ^ 64
    pub size : J.size (serialize_response J resp) ≤ ipc_max_payload

  worker_answers :
      (w : Worker J P) (msg : IpcMessage J) (cmd : SerializedCommand)
      → w.waiting_sync_token ≡ none
      → msg.type ≡ command
      → deserialize_command J msg.payload ≡ some cmd
      → (w' : Worker J P) × (rest : List (IpcMessage J)) × (process_message J P w msg
          ≡ some (w', command_response J P msg cmd (run_command J P w.plugin cmd).1 ∷ rest))
  unfolding process_message handle_command
  worker_answers w msg cmd awake t e = (
    record w {
      plugin = (run_command J P w.plugin cmd).0;
      waiting_sync_token = wait_after J P cmd cmd.sync_token w.waiting_sync_token;
    },
    acks_of J P msg cmd.sync_token,
    simp (t, awake) (rw (handle_command, e) refl),
  )

  -- The proxy once the response has come.
  response_resolves :
      (p : Proxy) (msg : IpcMessage J) (resp : CommandResponse)
      → has msg.id p.pending ≡ true
      → deserialize_response J msg.payload ≡ some resp
      → (q : Proxy) × (handle_response_message J p msg ≡ some q)
        × (lookup msg.id q.resolved ≡ some resp)
  unfolding handle_response_message count_done resolve
  response_resolves p msg resp h e = (
    count_done resp.success (resolve msg.id resp p),
    rw (e, h) refl,
    ground (arith, lookup-insert msg.id msg.id resp p.resolved, nat_eqb_iff msg.id msg.id),
  )

  -- A command that the proxy sends is run by a worker that is not blocked, and the response fulfils the
  -- command's future with what the plugin answered to it, without the fields of a buffer where it has none; when
  -- the proxy's queue is open, the command holds each parameter once, its text and the response to it fit
  -- into a message, its token and the count of elements into 64 bits, and no double in its arrays and in
  -- the response is NaN or infinite. All its parameters reach the worker but the single doubles that are
  -- not finite; of those that do, the plugin is given the first 16, with names and texts cut to 127
  -- characters, and arrays as values without a type.
  pub execute-fulfilled :
      (p : Proxy) (w : Worker J P) (cmd : SerializedCommand)
      → p.queue_open ≡ true
      → w.waiting_sync_token ≡ none
      → Unique cmd.params
      → Values ArrayFinite cmd.params
      → TokenFits cmd.sync_token
      → J.size (serialize_command J (record cmd { id = command_id p })) ≤ ipc_max_payload
      → ((ps : Dict String ParamValue)
          → deserialize_command J (serialize_command J (record cmd { id = command_id p }))
            ≡ some (arrived p cmd ps)
          → Carried (plugin_answer p w cmd ps))
      → (ps : Dict String ParamValue) × (msg : IpcMessage J) × (p1 : Proxy) × (w1 : Worker J P)
        × (reply : IpcMessage J) × (rest : List (IpcMessage J)) × (p2 : Proxy) × ((j : String)
            → lookup j ps ≡ (lookup j cmd.params >>= keep))
        × ((to_plugin_command (arrived p cmd ps)).params ≡ map seen (take 16 ps))
        × (execute J true p cmd ≡ some (msg, p1))
        × (process_message J P w msg ≡ some (w1, reply ∷ rest))
        × (handle_response_message J p1 reply ≡ some p2)
        × (lookup p.next_message_id p2.resolved
            ≡ some (without_stale_buffer (plugin_answer p w cmd ps)))
  unfolding execute command_message command_response count_sent to_plugin_command
  execute-fulfilled p w cmd on awake u finite_arrays fits small carried =
      let sent_cmd = record cmd { id = command_id p } in
      let msg = command_message J p cmd in
      let (ps, read, params) = command_arrives J sent_cmd u finite_arrays fits in
      let whole : msg.payload ≡ serialize_command J sent_cmd =
        J.cut_whole ipc_max_payload _ small in
      let answer = plugin_answer p w cmd ps in
      let c = carried ps read in
      let (w1, rest, ran) =
        worker_answers w msg (arrived p cmd ps) awake refl
          (ap (deserialize_command J) whole ∙ read) in
      let reply =
        command_response J P msg (arrived p cmd ps)
          (run_command J P w.plugin (arrived p cmd ps)).1 in
      let whole' : reply.payload ≡ serialize_response J answer =
        J.cut_whole ipc_max_payload _ c.size in
      let (p2, done, kept) =
        response_resolves (count_sent (open_request p)) reply (without_stale_buffer answer)
          (open_request-has p)
          (ap (deserialize_response J) whole' ∙ response_arrives J answer c.value c.count) in
      (
        ps,
        msg,
        count_sent (open_request p),
        w1,
        reply,
        rest,
        p2,
        params,
        to_plugin_params-seen 16 ps,
        simp on refl,
        ran,
        done,
        kept,
      )
