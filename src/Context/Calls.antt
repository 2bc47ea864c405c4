-- ===== src/Context/Calls.antt =====
-- src/server/RuntimeContext.cpp: `call`, from the text of the function's name to the value that Lua gets.
use Prim.Native.String.{◌++◌}
use instrument_script_server.Base.{
  ℕ, ◌+◌, ℤ, pos, negsuc, String, Bool, true, false, Option, none, some, List, [], ◌∷◌, Dict,
  insert, length, push_back, map_option, if◌then◌else◌, not, nat_key, string_key, to_decimal, ◌>>=◌,
}
use instrument_script_server.Wire.{
  ParamValue, double, int64, string, bool, doubles, SerializedCommand, CommandResponse, new_command,
  new_response,
}
use instrument_script_server.Json.Codec.{JsonText}
use instrument_script_server.Proxy.{Proxy, finish_sync, resolve, count_done}
use instrument_script_server.Registry.{get_instrument}
use instrument_script_server.Registry.Lookup.{command_expects_response}
use instrument_script_server.Context.Naming.{CallSpec, parse_call}
use instrument_script_server.Context.{
  CallResult, new_result, Future, RuntimeContext, World, add_placeholder, begin_token, put_proxy,
  execute_on, dispatch, Awaited, responds, silent, throws, kills,
}

-- Values as Lua holds them. Tables, functions and user data are `other`.
pub data LuaValue : Type 0 where
  nil : LuaValue
  number : ℕ → LuaValue
  integer : ℤ → LuaValue
  text : String → LuaValue
  boolean : Bool → LuaValue
  other : LuaValue

-- The arguments of a call: one table, its entries in the order of the iteration, or any others.
pub data Args : Type 0 where
  table : List (String × LuaValue) → Args
  listed : List LuaValue → Args

abbrev pub signed_decimal : ℤ → String
signed_decimal (pos n) = to_decimal n
signed_decimal (negsuc n) = "-" ++ to_decimal (n + 1)

abbrev pub param_value_type_name : ParamValue → String
param_value_type_name (double d) = "float"
param_value_type_name (int64 z) = "integer"
param_value_type_name (string s) = "string"
param_value_type_name (bool b) = "boolean"
param_value_type_name (doubles ds) = "array"

-- `populate_callresult_from_response`
abbrev pub set_value : CallResult → ParamValue → CallResult
set_value cr (doubles ds) = record cr {
  return_value = some (doubles ds);
  return_type = "array";
  element_count = length ds;
  data_type = "float";
}
set_value cr v = record cr { return_value = some v; return_type = param_value_type_name v }

abbrev pub with_return : CallResult → CommandResponse → Bool → Option ParamValue → CallResult
with_return cr resp true v = record cr {
  has_large_data = true;
  buffer_id = resp.buffer_id;
  element_count = resp.element_count;
  data_type = resp.data_type;
  return_type = "buffer";
}
with_return cr resp false (some v) = set_value cr v
with_return cr resp false none = record cr { return_type = "void" }

unfoldable pub populate : CallResult → CommandResponse → CallResult
populate cr resp =
    let head = record cr {
      command_id = resp.command_id;
      success = resp.success;
      error_message = resp.error_message;
    } in
    with_return head resp resp.has_large_data resp.return_value

-- What Lua gets of a return value.
abbrev pub lua_value : Option ParamValue → LuaValue
lua_value none = nil
lua_value (some (double d)) = number d
lua_value (some (int64 z)) = integer z
lua_value (some (string s)) = text s
lua_value (some (bool b)) = boolean b
lua_value (some (doubles ds)) = nil

abbrev pub returned : CommandResponse → LuaValue
returned resp =
    if not resp.success
    then nil
    else if resp.has_large_data
    then nil
    else lua_value resp.return_value

-- `is<double>` holds of both kinds of Lua numbers, so the test for an int behind it is never reached.
abbrev pub lua_param : (ℤ → ℕ) → LuaValue → Option ParamValue
lua_param to_double (number d) = some (double d)
lua_param to_double (integer z) = some (double (to_double z))
lua_param to_double (text s) = some (string s)
lua_param to_double (boolean b) = some (bool b)
lua_param to_double _ = none

abbrev pub put_some : String → Option ParamValue → Dict String ParamValue → Dict String ParamValue
put_some k none m = m
put_some k (some v) m = insert k v m

unfoldable pub table_params :
    (ℤ → ℕ) → List (String × LuaValue) → Dict String ParamValue → Dict String ParamValue
table_params to_double [] m = m
table_params to_double ((k, v) ∷ entries) m =
    table_params to_double entries (put_some k (lua_param to_double v) m)

unfoldable pub listed_params :
    (ℤ → ℕ) → ℕ → List LuaValue → Dict String ParamValue → Dict String ParamValue
listed_params to_double i [] m = m
listed_params to_double i (v ∷ vs) m =
    listed_params to_double (i + 1) vs (put_some ("arg" ++ to_decimal i) (lua_param to_double v) m)

abbrev pub args_params : (ℤ → ℕ) → Args → Dict String ParamValue
args_params to_double (table entries) = table_params to_double entries []
args_params to_double (listed vs) = listed_params to_double 0 vs []

unfoldable pub call_params : (ℤ → ℕ) → CallSpec → Args → Dict String ParamValue
call_params to_double spec args =
    put_some "channel" (map_option int64 spec.channel) (args_params to_double args)

-- The command that `call` builds in a parallel block and in enqueue mode.
abbrev pub built_command : String → String → Dict String ParamValue → Bool → SerializedCommand
built_command instrument_id verb params expects_response = record new_command {
  instrument_name = instrument_id;
  verb = verb;
  params = params;
  expects_response = expects_response;
}

unfoldable pub buffer_command : SerializedCommand → RuntimeContext → RuntimeContext
buffer_command cmd c = record c { parallel_buffer = push_back cmd c.parallel_buffer }

module _ (J : JsonText) (W : World) where
  -- The listener thread stores the response of the worker before the wait is over, or the time runs out.
  -- `none` is a wait that ends with an exception or with the process.
  abbrev pub response_arrived : ℕ → Awaited → Proxy → Option Proxy
  response_arrived msg_id (responds resp) p = some (count_done resp.success (resolve msg_id resp p))
  response_arrived msg_id silent p = some p
  response_arrived msg_id throws p = none
  response_arrived msg_id kills p = none

  -- `worker->execute_sync`, after its `execute`.
  abbrev pub synced : String → Future × RuntimeContext → Option (CommandResponse × RuntimeContext)
  synced name (future, c) = elim (get_instrument name c.registry) [
    | none ↦ some (new_response, c)
    | some p ↦
        map_option
          (λ p'.
            let (resp, p'') = finish_sync J future.1 W.moved_id p' in
            (resp, record c { registry = put_proxy name p'' c.registry }))
          (response_arrived future.1 (W.answer future) p)
  ]

  abbrev pub send_to :
      String
      → SerializedCommand
      → RuntimeContext
      → Option Proxy
      → Option (CommandResponse × RuntimeContext)
  send_to instrument_id cmd c none =
      some (record new_response { error_message = "Instrument not found: " ++ instrument_id }, c)
  send_to instrument_id cmd c (some p) =
      execute_on J W instrument_id p cmd c >>= synced instrument_id

  unfoldable pub send_command :
      String
      → String
      → Dict String ParamValue
      → Bool
      → RuntimeContext
      → Option (CommandResponse × RuntimeContext)
  send_command instrument_id verb params expects_response c =
      let cmd = record (built_command instrument_id verb params expects_response) {
        id = instrument_id ++ "-" ++ to_decimal W.now;
      } in
      send_to instrument_id cmd c (get_instrument instrument_id c.registry)

  abbrev pub placeholder : String → String → Dict String ParamValue → CallResult
  placeholder name verb params = record new_result {
    instrument_name = name;
    verb = verb;
    params = params;
    executed_at = W.now;
  }

  -- A call in enqueue mode: a token of its own, and the command marked as its barrier.
  unfoldable pub enqueue_call :
      CallSpec → SerializedCommand → RuntimeContext → Option RuntimeContext
  enqueue_call spec cmd c =
      let token = c.next_sync_token in
      let cmd' = record cmd { sync_token = some token; is_sync_barrier = true } in
      let cr = placeholder spec.instrument_spec spec.verb cmd.params in
      dispatch J W token spec.instrument_id cmd' (add_placeholder token cr (begin_token c))

  abbrev pub enqueue_found :
      CallSpec → SerializedCommand → RuntimeContext → Option Proxy → Option RuntimeContext
  enqueue_found spec cmd c none = some c
  enqueue_found spec cmd c (some p) = enqueue_call spec cmd c

  -- The result of a synchronous call is kept, and returned to Lua.
  abbrev pub record_call :
      CallSpec
      → Dict String ParamValue
      → CommandResponse × RuntimeContext
      → LuaValue × RuntimeContext
  record_call spec params (resp, c) =
      let cr = placeholder spec.instrument_spec spec.verb params in
      (
        returned resp,
        record c { collected_results = push_back (populate cr resp) c.collected_results },
      )

  unfoldable pub call_parsed : CallSpec → Args → RuntimeContext → Option (LuaValue × RuntimeContext)
  call_parsed spec args c =
      let params = call_params J.to_double spec args in
      let expects = command_expects_response spec.instrument_id spec.verb c.registry in
      let cmd = built_command spec.instrument_id spec.verb params expects in
      if c.in_parallel_block
      then some (nil, buffer_command cmd c)
      else if c.enqueue_mode
      then map_option (λ c'. (nil, c'))
          (enqueue_found spec cmd c (get_instrument spec.instrument_id c.registry))
      else map_option (record_call spec params)
          (send_command spec.instrument_id spec.verb params expects c)

  abbrev pub call_spec :
      Args → RuntimeContext → Option CallSpec → Option (LuaValue × RuntimeContext)
  call_spec args c none = some (nil, c)
  call_spec args c (some spec) = call_parsed spec args c

  unfoldable pub call : String → Args → RuntimeContext → Option (LuaValue × RuntimeContext)
  call func_name args c = call_spec args c (parse_call func_name)
