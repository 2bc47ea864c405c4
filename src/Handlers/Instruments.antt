-- ===== src/Handlers/Instruments.antt =====
-- src/server/CommandHandlers.cpp: the handlers that create, remove, show and test instruments. `list_instruments` is
-- in the order of the map, and `back` its last name.
use Prim.Native.String.{◌++◌}
use instrument_script_server.Base.{
  pos, String, Bool, true, false, Option, none, some, List, [], ◌∷◌, Dict, insert, if◌then◌else◌,
  string_key, ◌==◌, ◌||◌, not, ℕ, ◌>>=◌,
}
use instrument_script_server.Json.{
  Json, null, boolean, text, integer, floating, array, object, nil, end, object_of, dict,
}
use instrument_script_server.Json.Codec.{JsonText}
use instrument_script_server.Wire.{
  ParamValue, double, int64, string, bool, doubles, SerializedCommand, CommandResponse, new_command,
  value_json,
}
use instrument_script_server.Proxy.{Proxy, execute, finish_sync, count_done, resolve}
use instrument_script_server.Registry.{
  Registry, Launch, create_instrument, get_instrument, has_instrument, list_instruments,
  remove_instrument,
}
use instrument_script_server.Plugins.{get_plugin_path}
use instrument_script_server.Context.{put_proxy, Awaited, responds, kills, throws, silent}
use instrument_script_server.Handlers.{
  Server, Host, Reply, HandlerOutcome, replied, ended, refuse, text_value, json_value, with_value,
  with_text,
}
use instrument_script_server.Handlers.Plugins.{load_custom, texts_json}

abbrev pub launch_of : Host → Server → Launch
launch_of host s = record {
  plugin_path = λ type. get_plugin_path type s.plugins;
  queue_made = host.queue_made;
  spawned = host.spawned;
  alive = host.worker_alive;
}

abbrev pub exception_reply : Host → Reply
exception_reply host = refuse ("exception: " ++ host.what)

-- The last element of a vector, if it has one.
abbrev pub last_of {ℓ} : {A : Type ℓ} → List A → Option A
last_of [] = none
last_of (x ∷ []) = some x
last_of (x ∷ y ∷ xs) = last_of (y ∷ xs)

-- A custom plugin, if the request names one: a refusal, or the server to go on with. A loader that does not throw has
-- loaded its library.
abbrev pub with_plugin : Host → String → Server → (Server → HandlerOutcome) → HandlerOutcome
with_plugin host path s f =
    if path == ""
    then f s
    else if not (host.disk.exists path)
    then replied (refuse "plugin file not found") s
    else elim (host.disk.load path) [
      | none ↦ replied (exception_reply host) s
      | some metadata ↦ f (load_custom host path metadata s)
    ]

abbrev pub status_reply : Host → String → Option Proxy → Reply
status_reply host name none = refuse "instrument not found"
status_reply host name (some p) = (
  0,
  ("alive", boolean (host.is_alive name))
      ∷ ("name", text name)
      ∷ ("ok", boolean true)
      ∷ (
        "stats",
        object_of (
            ("commands_completed", integer (pos p.stats.commands_completed))
            ∷ ("commands_failed", integer (pos p.stats.commands_failed))
            ∷ ("commands_sent", integer (pos p.stats.commands_sent))
            ∷ ("commands_timeout", integer (pos p.stats.commands_timeout))
            ∷ []),
      )
      ∷ [],
)

unfoldable pub handle_status : Host → Json → Server → HandlerOutcome
handle_status host params s =
    with_text "missing name" s
      (λ name. replied (status_reply host name (get_instrument name s.registry)) s)
      (text_value "name" "" params)

unfoldable pub handle_list : Server → HandlerOutcome
handle_list s =
    replied
      (0, ("instruments", texts_json (list_instruments s.registry)) ∷ ("ok", boolean true) ∷ []) s

abbrev pub stop_named : String → Server → HandlerOutcome
stop_named name s =
    if has_instrument name s.registry
    then replied (0, ("ok", boolean true) ∷ [])
        (record s { registry = remove_instrument name s.registry })
    else replied (refuse "instrument not found") s

unfoldable pub handle_stop : Json → Server → HandlerOutcome
handle_stop params s =
    with_text "missing name" s (λ name. stop_named name s) (text_value "name" "" params)

abbrev pub created_members : Option String → Dict String Json
created_members none = ("ok", boolean true) ∷ []
created_members (some name) = ("instrument", text name) ∷ ("ok", boolean true) ∷ []

abbrev pub start_reply : Bool × Registry → Server → HandlerOutcome
start_reply (true, r) s =
    replied (0, created_members (last_of (list_instruments r))) (record s { registry = r })
start_reply (false, r) s =
    replied (refuse "failed to create instrument") (record s { registry = r })

-- A parameter of handle_test. An array or an object becomes its text.
abbrev pub test_param : Host → Json → ParamValue
test_param host (integer z) = int64 z
test_param host (floating d) = double d
test_param host (boolean b) = bool b
test_param host (text s) = string s
test_param host j = string (host.dump_text j)

unfoldable pub test_params :
    Host → Dict String Json → Dict String ParamValue → Dict String ParamValue
test_params host [] m = m
test_params host ((k, j) ∷ fs) m = test_params host fs (insert k (test_param host j) m)

-- The iteration over a value: `key` of the iterator throws on what is not an object.
abbrev pub params_of_json : Host → Json → Option (Dict String ParamValue)
params_of_json host (object fs) = some (test_params host (dict fs) [])
params_of_json host null = some []
params_of_json host (array nil) = some []
params_of_json host _ = none

abbrev pub put_value : Option ParamValue → Dict String Json → Dict String Json
put_value none m = m
put_value (some (doubles ds)) m = m
put_value (some v) m = insert "return_value" (value_json v) m

abbrev pub test_reply : CommandResponse → Reply
test_reply resp = (
  if resp.success then 0 else 1,
  put_value (if resp.success then resp.return_value else none) (
      ("error_message", text resp.error_message)
      ∷ ("ok", boolean resp.success)
      ∷ ("success", boolean resp.success)
      ∷ ("text_response", text resp.text_response)
      ∷ []),
)

abbrev pub test_command : String → String → Dict String ParamValue → SerializedCommand
test_command name verb params = record new_command {
  id = "rpc-test-cmd";
  instrument_name = name;
  verb = verb;
  params = params;
  expects_response = true;
}

module _ (J : JsonText) (host : Host) where
  abbrev pub create_from : String → Server → Bool × Registry
  create_from config_path s =
      create_instrument J (launch_of host s) host.load_config host.load_api config_path s.registry

  unfoldable pub handle_start : Json → Server → HandlerOutcome
  handle_start params s = with_value (text_value "plugin" "" params) (λ custom_plugin.
      with_value (text_value "log_level" "info" params) (λ log_level.
        with_text "missing config_path" s
          (λ config_path.
            with_plugin host custom_plugin s (λ s'. start_reply (create_from config_path s') s'))
          (text_value "config_path" "" params)))

  -- The wait of `execute_sync`: a response that cannot be read ends the process in the listener thread.
  abbrev pub sync_end : ℕ → Proxy → Awaited → Option (Option CommandResponse × Proxy)
  sync_end msg_id p kills = none
  sync_end msg_id p throws = some (none, p)
  sync_end msg_id p silent =
      let (resp, p') = finish_sync J msg_id host.world.moved_id p in some (some resp, p')
  sync_end msg_id p (responds resp) =
      let (resp', p') =
        finish_sync J msg_id host.world.moved_id
          (count_done resp.success (resolve msg_id resp p)) in
      some (some resp', p')

  -- `proxy->execute_sync`: its answer, or its exception, and the proxy when the wait is over.
  abbrev pub sync_on : String → Proxy → SerializedCommand → Option (Option CommandResponse × Proxy)
  sync_on name p cmd = execute J (host.world.sent name p.next_message_id) p cmd >>= λ r.
      sync_end r.0.id r.1 (host.world.answer (name, r.0.id))

  -- The instrument is removed behind the command; an exception is caught and leaves it.
  abbrev pub after_test : String → Server → Option (Option CommandResponse × Proxy) → HandlerOutcome
  after_test name s none = ended
  after_test name s (some (none, p)) =
      replied (exception_reply host) (record s { registry = put_proxy name p s.registry })
  after_test name s (some (some resp, p)) =
      replied (test_reply resp)
        (record s { registry = remove_instrument name (put_proxy name p s.registry) })

  -- A throw of the iteration is caught, and leaves the instrument.
  abbrev pub test_with :
      String → String → Proxy → Server → Option (Dict String ParamValue) → HandlerOutcome
  test_with name verb p s none = replied (exception_reply host) s
  test_with name verb p s (some params) =
      after_test name s (sync_on name p (test_command name verb params))

  abbrev pub test_found : String → String → Json → Server → Option Proxy → HandlerOutcome
  test_found name verb params s none =
      replied (refuse "failed to get instrument proxy")
        (record s { registry = remove_instrument name s.registry })
  test_found name verb params s (some p) = test_with name verb p s (params_of_json host params)

  abbrev pub test_last : String → Json → Server → Option String → HandlerOutcome
  test_last verb params s none = replied (refuse "no instrument created") s
  test_last verb params s (some name) =
      test_found name verb params s (get_instrument name s.registry)

  abbrev pub test_created : String → Json → Server → Bool × Registry → HandlerOutcome
  test_created verb params s (false, r) =
      replied (refuse "failed to create instrument") (record s { registry = r })
  test_created verb params s (true, r) =
      test_last verb params (record s { registry = r }) (last_of (list_instruments r))

  abbrev pub run_test : String → String → String → Json → Server → HandlerOutcome
  run_test config_path verb custom_plugin param_values s =
      if config_path == "" || verb == ""
      then replied (refuse "missing config_path or verb") s
      else with_plugin host custom_plugin s
          (λ s'. test_created verb param_values s' (create_from config_path s'))

  unfoldable pub handle_test : Json → Server → HandlerOutcome
  handle_test params s = with_value (text_value "config_path" "" params) (λ config_path.
      with_value (text_value "verb" "" params) (λ verb.
        with_value (text_value "plugin" "" params) (λ custom_plugin.
          with_value (text_value "log_level" "info" params) (λ log_level.
            with_value (json_value "params" (object end) params)
              (λ param_values. run_test config_path verb custom_plugin param_values s)))))
