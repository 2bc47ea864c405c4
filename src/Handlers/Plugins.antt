-- ===== src/Handlers/Plugins.antt =====
-- src/server/CommandHandlers.cpp: the handlers for plugins, and for the daemon.
use instrument_script_server.Registry.{stop_all}
use Prim.Native.String.{◌++◌}
use instrument_script_server.Base.{
  pos, String, true, false, Option, none, some, List, [], ◌∷◌, lookup, length, map, if◌then◌else◌,
  string_key, ◌==◌, ◌>>=◌, ◌&&◌,
}
use instrument_script_server.Json.{
  Json, boolean, text, integer, array, items, object_of, members, elements, is_array, as_text,
}
use instrument_script_server.Plugins.{
  PluginRegistry, PluginMetadata, load_plugin, load_builtin_plugins, discover_plugins,
  list_protocols, get_plugin_path,
}
use instrument_script_server.Handlers.{
  Server, Host, Reply, HandlerOutcome, replied, refuse, text_value, bool_value, with_value,
  thrown_in,
}

abbrev pub standard_paths : List String
standard_paths =
    "/usr/local/lib/instrument-plugins" ∷ "/usr/lib/instrument-plugins" ∷ "./plugins" ∷ "." ∷ []

-- The texts of an array; any other element throws.
unfoldable pub texts_of : List Json → Option (List String)
texts_of [] = some []
texts_of (j ∷ js) = do t ← as_text j; ts ← texts_of js; some (t ∷ ts)

abbrev pub paths_in : Option Json → Option (List String)
paths_in none = some standard_paths
paths_in (some j) = if is_array j then texts_of (elements j) else some standard_paths

-- The first call loads the built-in plugins and discovers; every call discovers.
unfoldable pub discovered_by : Host → List String → Server → Server
discovered_by host search_paths s =
    let first =
      if s.discovered
      then s.plugins
      else discover_plugins host.disk search_paths (load_builtin_plugins host.disk s.plugins) in
    record s { plugins = discover_plugins host.disk search_paths first; discovered = true }

abbrev pub texts_json : List String → Json
texts_json ts = array (items (map text ts))

abbrev pub discover_reply : List String → Server → HandlerOutcome
discover_reply search_paths s =
    replied
      (
        0,
        ("ok", boolean true)
            ∷ ("paths", texts_json search_paths)
            ∷ ("protocols", texts_json (list_protocols s.plugins))
            ∷ [],
      )
      s

unfoldable pub handle_discover : Host → Json → Server → HandlerOutcome
handle_discover host params s =
    with_value (paths_in (lookup "paths" (members params)))
      (λ search_paths. discover_reply search_paths (discovered_by host search_paths s))

abbrev pub plugin_entry : PluginRegistry → String → Json
plugin_entry plugins protocol =
    object_of (("path", text (get_plugin_path protocol plugins)) ∷ ("protocol", text protocol) ∷ [])

abbrev pub plugins_reply : Server → HandlerOutcome
plugins_reply s =
    replied
      (
        0,
        ("ok", boolean true)
            ∷ ("plugins", array (items (map (plugin_entry s.plugins) (list_protocols s.plugins))))
            ∷ ("total", integer (pos (length (list_protocols s.plugins))))
            ∷ [],
      )
      s

unfoldable pub handle_plugins : Host → Server → HandlerOutcome
handle_plugins host s =
    let first = if s.builtins_loaded then s.plugins else load_builtin_plugins host.disk s.plugins in
    plugins_reply (record s {
      plugins = discover_plugins host.disk standard_paths first;
      builtins_loaded = true;
    })

-- The plugin that a request names, loaded for its protocol. The result of load_plugin is not read.
abbrev pub load_custom : Host → String → PluginMetadata → Server → Server
load_custom host path metadata s = record s {
  plugins = (load_plugin host.disk metadata.protocol_type path s.plugins).1;
}

-- The start of the daemon also waits until it stops, if the request does not say otherwise; its port is not
-- modelled.
abbrev pub daemon_reply : Host → String → Reply
daemon_reply host action =
    if action == "start"
    then (if host.daemon_starts
        then (0, ("ok", boolean true) ∷ ("pid", integer host.daemon_pid) ∷ [])
        else refuse "Failed to start daemon")
    else if action == "stop"
    then (if host.daemon_runs
        then (0, ("ok", boolean true) ∷ [])
        else (0, ("message", text "daemon not running") ∷ ("ok", boolean true) ∷ []))
    else if action == "status"
    then (if host.daemon_runs
        then (
          0,
          ("message", text ("daemon running (pid=" ++ host.decimal_text host.daemon_pid ++ ")"))
              ∷ ("ok", boolean true)
              ∷ ("pid", integer host.daemon_pid)
              ∷ ("running", boolean true)
              ∷ [],
        )
        else (
          0,
          ("message", text "daemon not running")
              ∷ ("ok", boolean true)
              ∷ ("running", boolean false)
              ∷ [],
        ))
    else refuse "Unknown daemon action"

-- A daemon of this process stops its instruments and the RPC server, whose `stop` closes the socket and joins the
-- thread that serves the request: a thread that joins itself throws. The loop of the RPC server ends
-- behind the request.
unfoldable pub handle_daemon : Host → Json → Server → HandlerOutcome
handle_daemon host params s = with_value (text_value "action" "" params) (λ action.
    with_value (text_value "log_level" "info" params) (λ log_level.
      with_value (bool_value "block" true params) (λ block.
        if action == "stop" && host.daemon_runs && host.daemon_here
        then thrown_in (record s { registry = stop_all s.registry })
        else replied (daemon_reply host action) s)))
