-- ===== src/Context.antt =====
-- include/instrument-server/server/RuntimeContext.hpp: the context that a script calls, its state and the
-- steps its methods share.
--
-- One method call is one step of the model: what other threads do to the registry meanwhile is not modelled. The
-- proxies are those of the registry, and a future is a worker's name and the id of the message that it answers.
-- `calls` is kept by the model alone: the calls of the proxies, the oldest first. `none` ends the process.
pub mod Workers
pub mod Sends
pub mod Naming
pub mod Calls
pub mod Parallel
pub mod Tokens
pub mod Script
mod Tests
use instrument_script_server.Base.{
  ℕ, ◌+◌, ◌%◌, ◌^◌, ℤ, pos, String, Bool, true, false, Option, none, some, List, [], ◌∷◌, Dict,
  lookup, insert, add_all, is_empty, length, push_back, map_option, if◌then◌else◌, nat_key,
  string_key,
}
use instrument_script_server.Wire.{ParamValue, SerializedCommand, CommandResponse, new_command}
use instrument_script_server.Json.Codec.{JsonText}
use instrument_script_server.Sync.{SyncCoordinator, no_barriers, register_barrier}
use instrument_script_server.Ipc.{IpcMessage}
use instrument_script_server.Proxy.{Proxy, execute}
use instrument_script_server.Registry.{Registry, get_instrument, list_instruments}

pub record CallResult : Type 0 where
  pub command_id : String
  pub instrument_name : String
  pub verb : String
  pub params : Dict String ParamValue
  pub executed_at : ℕ
  pub return_value : Option ParamValue
  pub return_type : String
  pub has_large_data : Bool
  pub buffer_id : String
  pub element_count : ℕ
  pub data_type : String
  pub success : Bool
  pub error_message : String

abbrev pub new_result : CallResult
new_result = record {
  command_id = "";
  instrument_name = "";
  verb = "";
  params = [];
  executed_at = 0;
  return_value = none;
  return_type = "";
  has_large_data = false;
  buffer_id = "";
  element_count = 0;
  data_type = "";
  success = false;
  error_message = "";
}

abbrev pub Future : Type 0
Future = String × ℕ

pub data WorkerCall : Type 0 where
  executes : String → SerializedCommand → WorkerCall
  continues : String → ℕ → WorkerCall

pub record RuntimeContext : Type 0 where
  pub registry : Registry
  pub sync_coordinator : SyncCoordinator
  pub in_parallel_block : Bool
  pub parallel_buffer : List SerializedCommand
  pub next_sync_token : ℕ
  pub collected_results : List CallResult
  pub enqueue_mode : Bool
  pub token_order : List ℕ
  pub token_instruments : Dict ℕ (List String)
  pub token_futures : Dict ℕ (List Future)
  pub token_result_indices : Dict ℕ (List ℕ)
  pub calls : List WorkerCall

abbrev pub new_context : Registry → SyncCoordinator → Bool → RuntimeContext
new_context registry sync_coordinator enqueue_mode = record {
  registry = registry;
  sync_coordinator = sync_coordinator;
  in_parallel_block = false;
  parallel_buffer = [];
  next_sync_token = 1;
  collected_results = [];
  enqueue_mode = enqueue_mode;
  token_order = [];
  token_instruments = [];
  token_futures = [];
  token_result_indices = [];
  calls = [];
}

-- What comes of a message that is waited for: its response, an exception in the promise, nothing, or a
-- response that cannot be read, whose exception leaves the listener thread and ends the process.
pub data Awaited : Type 0 where
  responds : CommandResponse → Awaited
  throws : Awaited
  silent : Awaited
  kills : Awaited

-- What `get` of a future gives, where `some none` is an exception. It has no time limit: `none` is a `get`
-- that never returns.
abbrev pub get : Awaited → Option (Option CommandResponse)
get (responds resp) = some (some resp)
get throws = some none
get silent = none
get kills = none

-- What happens outside a method while it runs: whether a worker's queue takes the message with an id, what
-- comes of a future's message, the id that a command holds after it has been moved away, and the
-- clock in nanoseconds.
pub record World : Type 0 where
  pub sent : String → ℕ → Bool
  pub answer : Future → Awaited
  pub moved_id : String
  pub now : ℕ

-- m[k], which makes an empty vector or set where there is none.
abbrev pub list_at {ℓ} : {A : Type ℓ} → ℕ → Dict ℕ (List A) → List A
list_at k m = elim (lookup k m) [ none ↦ [] | some xs ↦ xs ]

-- m[k].push_back(a)
unfoldable pub append_at {ℓ} : {A : Type ℓ} → ℕ → A → Dict ℕ (List A) → Dict ℕ (List A)
append_at k a m = insert k (push_back a (list_at k m)) m

-- A new token, with a barrier for all instruments.
unfoldable pub begin_token : RuntimeContext → RuntimeContext
begin_token c =
    let token = c.next_sync_token in
    let all_instruments = list_instruments c.registry in
    record c {
      next_sync_token = (token + 1) % 2 ^ 64;
      sync_coordinator = register_barrier token all_instruments c.sync_coordinator;
      token_order = push_back token c.token_order;
      token_instruments =
          if is_empty all_instruments
          then c.token_instruments
          else insert token (add_all all_instruments (list_at token c.token_instruments))
              c.token_instruments;
    }

-- The placeholder of a result, and its index under the token.
unfoldable pub add_placeholder : ℕ → CallResult → RuntimeContext → RuntimeContext
add_placeholder token cr c = record c {
  collected_results = push_back cr c.collected_results;
  token_result_indices = append_at token (length c.collected_results) c.token_result_indices;
}

unfoldable pub put_proxy : String → Proxy → Registry → Registry
put_proxy name p r = record r { instruments = insert name p r.instruments }

module _ (J : JsonText) (W : World) where
  -- What `worker->execute` leaves: the future of the message, and the proxy after the call.
  abbrev pub executed :
      String → SerializedCommand → RuntimeContext → IpcMessage J × Proxy → Future × RuntimeContext
  executed name cmd c (msg, p) = (
    (name, msg.id),
    record c {
      registry = put_proxy name p c.registry;
      calls = push_back (executes name cmd) c.calls;
    },
  )

  unfoldable pub execute_on :
      String → Proxy → SerializedCommand → RuntimeContext → Option (Future × RuntimeContext)
  execute_on name p cmd c =
      map_option (executed name cmd c) (execute J (W.sent name p.next_message_id) p cmd)

  abbrev pub keep_future : ℕ → Future × RuntimeContext → RuntimeContext
  keep_future token (future, c) = record c {
    token_futures = append_at token future c.token_futures;
  }

  -- The worker executes the command, if there is one, and the token keeps the future.
  abbrev pub dispatch_found :
      ℕ → String → SerializedCommand → RuntimeContext → Option Proxy → Option RuntimeContext
  dispatch_found token name cmd c none = some c
  dispatch_found token name cmd c (some p) =
      map_option (keep_future token) (execute_on name p cmd c)

  unfoldable pub dispatch : ℕ → String → SerializedCommand → RuntimeContext → Option RuntimeContext
  dispatch token name cmd c = dispatch_found token name cmd c (get_instrument name c.registry)
