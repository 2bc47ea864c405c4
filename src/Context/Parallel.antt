-- ===== src/Context/Parallel.antt =====
-- src/server/RuntimeContext.cpp: `parallel`, in enqueue mode and without it, and scripts that call the context.
pub mod Grouping
pub mod Plan
pub mod Script
pub mod Fallback
use Prim.Native.String.{◌++◌}
use instrument_script_server.Base.{
  ℕ, ◌+◌, ◌%◌, ◌^◌, ℤ, String, Bool, true, false, Option, none, some, List, [], ◌∷◌, Dict, lookup,
  insert, member, is_empty, push_back, map_option, if◌then◌else◌, nat_key, string_key, ◌>>=◌,
  to_decimal,
}
use instrument_script_server.Wire.{
  ParamValue, int64, SerializedCommand, CommandResponse, new_command,
}
use instrument_script_server.Json.Codec.{JsonText}
use instrument_script_server.Sync.{SyncCoordinator, register_barrier, clear_barrier}
use instrument_script_server.Proxy.{Proxy, send_sync_continue}
use instrument_script_server.Registry.{Registry, get_instrument, has_instrument, list_instruments}
use instrument_script_server.Context.{
  CallResult, new_result, Future, WorkerCall, continues, RuntimeContext, World, add_placeholder,
  begin_token, execute_on, dispatch, get,
}
use instrument_script_server.Context.Calls.{
  Args, LuaValue, placeholder, populate, call, signed_decimal, buffer_command,
}

-- The commands by instrument, in the order in which they were buffered.
unfoldable pub commands_at : String → Dict String (List SerializedCommand) → List SerializedCommand
commands_at name m = elim (lookup name m) [ none ↦ [] | some cmds ↦ cmds ]

unfoldable pub group :
    List SerializedCommand
    → Dict String (List SerializedCommand)
    → Dict String (List SerializedCommand)
group [] per_inst = per_inst
group (cmd ∷ cmds) per_inst =
    group cmds (
      insert cmd.instrument_name (push_back cmd (commands_at cmd.instrument_name per_inst))
        per_inst)

abbrev pub nop_command : ℕ → String → SerializedCommand
nop_command token inst = record new_command {
  instrument_name = inst;
  verb = "__BARRIER_NOP__";
  expects_response = true;
  sync_token = some token;
  is_sync_barrier = true;
}

abbrev pub with_channel_of : String → Option ParamValue → String
with_channel_of name (some (int64 ch)) = name ++ ":" ++ signed_decimal ch
with_channel_of name _ = name

-- The instrument's name with its channel, as the results show it.
unfoldable pub display_name : SerializedCommand → String
display_name cmd = with_channel_of cmd.instrument_name (lookup "channel" cmd.params)

-- The command with the token of its block; the last of an instrument is its barrier.
abbrev pub marked : ℕ → Bool → SerializedCommand → SerializedCommand
marked token last cmd = record cmd { sync_token = some token; is_sync_barrier = last }

unfoldable pub start_block : RuntimeContext → RuntimeContext
start_block c = record c { in_parallel_block = true; parallel_buffer = [] }

-- The instruments of the buffered commands, each once, in the order of their first command.
unfoldable pub unique_instruments : List SerializedCommand → List String → List String
unique_instruments [] seen = seen
unique_instruments (cmd ∷ cmds) seen =
    unique_instruments cmds
      (if member cmd.instrument_name seen then seen else push_back cmd.instrument_name seen)

-- `worker->send_sync_continue`: a message to the worker's queue, if it is open. The proxy does not change.
unfoldable pub continue_on : ℕ → RuntimeContext → String → RuntimeContext
continue_on token c name =
    if has_instrument name c.registry
    then record c { calls = push_back (continues name token) c.calls }
    else c

unfoldable pub continue_all : ℕ → List String → RuntimeContext → RuntimeContext
continue_all token [] c = c
continue_all token (name ∷ names) c = continue_all token names (continue_on token c name)

-- What a block does: calls, and blocks in it, which are refused. It may end with an exception.
pub data Action : Type 0 where
  calls : String → Args → Action
  nests : Action

pub record Block : Type 0 where
  pub actions : List Action
  pub throws : Bool

module _ (J : JsonText) (W : World) where
  unfoldable pub send_nop : ℕ → String → RuntimeContext → Option RuntimeContext
  send_nop token inst c =
      let nop = nop_command token inst in
      dispatch J W token inst nop (add_placeholder token (placeholder J W inst nop.verb []) c)

  unfoldable pub send_one : ℕ → Bool → SerializedCommand → RuntimeContext → Option RuntimeContext
  send_one token last cmd c =
      let cr = placeholder J W (display_name cmd) cmd.verb cmd.params in
      dispatch J W token cmd.instrument_name (marked token last cmd) (add_placeholder token cr c)

  unfoldable pub send_each : ℕ → List SerializedCommand → RuntimeContext → Option RuntimeContext
  send_each token [] c = some c
  send_each token (cmd ∷ cmds) c =
      send_one token (is_empty cmds) cmd c >>= λ c'. send_each token cmds c'

  abbrev pub send_found :
      ℕ → String → Option (List SerializedCommand) → RuntimeContext → Option RuntimeContext
  send_found token inst none c = send_nop token inst c
  send_found token inst (some cmds) c = send_each token cmds c

  unfoldable pub send_all :
      ℕ
      → Dict String (List SerializedCommand)
      → List String
      → RuntimeContext
      → Option RuntimeContext
  send_all token per_inst [] c = some c
  send_all token per_inst (inst ∷ insts) c =
      send_found token inst (lookup inst per_inst) c >>= λ c'. send_all token per_inst insts c'

  -- A block in enqueue mode: one token, and for each instrument its commands, or a barrier that does nothing.
  unfoldable pub enqueue_block : RuntimeContext → Option RuntimeContext
  enqueue_block c =
      send_all c.next_sync_token (group c.parallel_buffer []) (list_instruments c.registry)
        (begin_token c)

  -- The loop that executes the buffered commands of a block without enqueue mode, with the futures so far. The
  -- commands in the buffer stay there, moved away; the next block clears them.
  abbrev pub add_future : List Future → Future × RuntimeContext → List Future × RuntimeContext
  add_future futures (future, c) = (push_back future futures, c)

  abbrev pub execute_found :
      ℕ
      → SerializedCommand
      → List Future
      → RuntimeContext
      → Option Proxy
      → Option (List Future × RuntimeContext)
  execute_found token cmd futures c none = some (futures, c)
  execute_found token cmd futures c (some p) = map_option (add_future futures) (
      execute_on J W cmd.instrument_name p
        (record cmd {
          sync_token = some token;
          id = cmd.instrument_name ++ "-" ++ to_decimal W.now;
        })
        c)

  unfoldable pub execute_each :
      ℕ
      → List SerializedCommand
      → List Future × RuntimeContext
      → Option (List Future × RuntimeContext)
  execute_each token [] s = some s
  execute_each token (cmd ∷ cmds) s =
      execute_found token cmd s.0 s.1 (get_instrument cmd.instrument_name s.1.registry) >>= λ s'.
      execute_each token cmds s'

  abbrev pub collect_one : Option CommandResponse → List CallResult → List CallResult
  collect_one none results = results
  collect_one (some resp) results =
      push_back (populate (record new_result { executed_at = W.now }) resp) results

  -- The responses in the order of the futures; one that throws is left out.
  unfoldable pub collect : List Future → List CallResult → Option (List CallResult)
  collect [] results = some results
  collect (future ∷ futures) results =
      get (W.answer future) >>= λ o. collect futures (collect_one o results)

  abbrev pub finished : ℕ → List String → RuntimeContext → List CallResult → RuntimeContext
  finished token instruments c results =
      let waited = record c { collected_results = results } in
      let released = continue_all token instruments waited in
      record released { sync_coordinator = clear_barrier token released.sync_coordinator }

  abbrev pub finish_buffer : ℕ → List String → List Future × RuntimeContext → Option RuntimeContext
  finish_buffer token instruments (futures, c) =
      map_option (finished token instruments c) (collect futures c.collected_results)

  unfoldable pub execute_parallel_buffer : RuntimeContext → Option RuntimeContext
  execute_parallel_buffer c =
      let token = c.next_sync_token in
      let instruments = unique_instruments c.parallel_buffer [] in
      let begun = record c {
        next_sync_token = (token + 1) % 2 ^ 64;
        sync_coordinator = register_barrier token instruments c.sync_coordinator;
      } in
      if is_empty c.parallel_buffer
      then some c
      else execute_each token c.parallel_buffer ([], begun) >>= finish_buffer token instruments

  -- A block within a block is refused with a message only.
  unfoldable pub run_actions : List Action → RuntimeContext → Option RuntimeContext
  run_actions [] c = some c
  run_actions (calls func_name args ∷ actions) c =
      call J W func_name args c >>= λ r. run_actions actions r.1
  run_actions (nests ∷ actions) c = run_actions actions c

  abbrev pub after_block : Bool → RuntimeContext → Option (Bool × RuntimeContext)
  after_block throws c =
      let ended = record c { in_parallel_block = false } in
      if throws
      then some (true, record ended { parallel_buffer = [] })
      else if is_empty c.parallel_buffer
      then some (false, ended)
      else map_option (λ c'. (false, c'))
          (if c.enqueue_mode then enqueue_block ended else execute_parallel_buffer ended)

  -- Whether the exception of the block is thrown on, and the state.
  unfoldable pub parallel : Block → RuntimeContext → Option (Bool × RuntimeContext)
  parallel block c =
      if c.in_parallel_block
      then some (false, c)
      else run_actions block.actions (start_block c) >>= after_block block.throws
