-- ===== src/Plugins/Tests.antt =====
-- Two directories that offer plugins for the same protocol, and one of the wrong version.
use instrument_script_server.Base.{
  ◌≡◌, some, true, [], ◌∷◌, String, List, if◌then◌else◌, string_key, ◌==◌,
}
use instrument_script_server.Plugins.{Disk, no_plugins, discover_plugins, load_builtin_plugins}
use instrument_script_server.Plugins.Growth.{Grows}
use instrument_script_server.Plugins.Discovery.{discover_plugins-Grows, discover_plugins_idem}

abbrev disk : Disk
disk = record {
  load = λ path.
      if path == "a/old.so"
      then some (record { api_version = 0; name = "old"; protocol_type = "Serial" })
      else some (record { api_version = 1; name = path; protocol_type = "VISA" });
  exists = λ path. true;
  entries = λ path. some (
      record { filename = "visa.so"; path = "a/visa.so" }
      ∷ record { filename = "old.so"; path = "a/old.so" }
      ∷ record { filename = "notes.txt"; path = "a/notes.txt" }
      ∷ []);
}

abbrev search_paths : List String
search_paths = "a" ∷ "b" ∷ []

discover_plugins_idem_example :
    discover_plugins disk search_paths (discover_plugins disk search_paths no_plugins)
    ≡ discover_plugins disk search_paths no_plugins
discover_plugins_idem_example = discover_plugins_idem disk search_paths no_plugins

discover_plugins-Grows_example :
    Grows
      (load_builtin_plugins disk no_plugins)
      (discover_plugins disk search_paths (load_builtin_plugins disk no_plugins))
discover_plugins-Grows_example =
    discover_plugins-Grows disk search_paths (load_builtin_plugins disk no_plugins)
