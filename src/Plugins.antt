-- ===== src/Plugins.antt =====
-- src/plugin/PluginRegistry.cpp: the plugins by protocol. What loading a library and looking into a directory give
-- is a parameter; a library that cannot be loaded gives nothing, whether by an error or an exception.
pub mod Growth
pub mod Discovery
mod Tests
use instrument_script_server.Base.{
  ℕ, String, Bool, true, false, Option, none, some, List, [], ◌∷◌, Dict, lookup, has, insert, erase,
  keys, if◌then◌else◌, nat_eqb, string_key, ◌==◌, ◌||◌,
}

pub record PluginMetadata : Type 0 where
  pub api_version : ℕ
  pub name : String
  pub protocol_type : String

pub record Entry : Type 0 where
  pub filename : String
  pub path : String

-- The disk: what the loader of a path gives, and the regular files of a directory, if it is one.
pub record Disk : Type 0 where
  pub load : String → Option PluginMetadata
  pub exists : String → Bool
  pub entries : String → Option (List Entry)

pub record PluginRegistry : Type 0 where
  pub plugins : Dict String PluginMetadata
  pub plugin_paths : Dict String String

abbrev pub no_plugins : PluginRegistry
no_plugins = record { plugins = []; plugin_paths = [] }

-- INSTRUMENT_PLUGIN_API_VERSION
abbrev pub plugin_api_version : ℕ
plugin_api_version = 1

unfoldable pub has_plugin : String → PluginRegistry → Bool
has_plugin protocol_type r = has protocol_type r.plugins

unfoldable pub get_plugin : String → PluginRegistry → Option PluginMetadata
get_plugin protocol_type r = lookup protocol_type r.plugins

-- The two maps with a new entry.
unfoldable pub register : String → String → PluginMetadata → PluginRegistry → PluginRegistry
register protocol_type plugin_path metadata r = record {
  plugins = insert protocol_type metadata r.plugins;
  plugin_paths = insert protocol_type plugin_path r.plugin_paths;
}

abbrev pub load_found :
    String → String → PluginRegistry → Option PluginMetadata → Bool × PluginRegistry
load_found protocol_type plugin_path r none = (false, r)
load_found protocol_type plugin_path r (some metadata) =
    if nat_eqb metadata.api_version plugin_api_version
    then (true, register protocol_type plugin_path metadata r)
    else (false, r)

unfoldable pub load_plugin : Disk → String → String → PluginRegistry → Bool × PluginRegistry
load_plugin disk protocol_type plugin_path r =
    if has protocol_type r.plugins
    then (false, r)
    else load_found protocol_type plugin_path r (disk.load plugin_path)

unfoldable pub unload_plugin : String → PluginRegistry → PluginRegistry
unload_plugin protocol_type r = record {
  plugins = erase protocol_type r.plugins;
  plugin_paths = erase protocol_type r.plugin_paths;
}

unfoldable pub list_protocols : PluginRegistry → List String
list_protocols r = keys r.plugins

unfoldable pub get_plugin_path : String → PluginRegistry → String
get_plugin_path protocol_type r = elim (lookup protocol_type r.plugin_paths) [
  | none ↦ ""
  | some path ↦ path
]

-- The paths of one built-in plugin, until one of them loads.
unfoldable pub try_paths : Disk → String → List String → PluginRegistry → PluginRegistry
try_paths disk protocol [] r = r
try_paths disk protocol (path ∷ paths) r =
    let (loaded, r') = load_plugin disk protocol path r in
    let rest = try_paths disk protocol paths r in
    let after = try_paths disk protocol paths r' in
    if disk.exists path then (if loaded then r' else after) else rest

-- The third path holds a space, as in the source.
abbrev pub visa_paths : List String
visa_paths =
    "/usr/local/lib/instrument-plugins/visa_plugin.so"
    ∷ "/usr/lib/instrument-plugins/visa_plugin.so" ∷ "./plugins/visa/visa_plugin. so"
    ∷ "./build/plugins/visa/visa_plugin.so" ∷ []

unfoldable pub load_builtin_plugins : Disk → PluginRegistry → PluginRegistry
load_builtin_plugins disk r = if has "VISA" r.plugins then r else try_paths disk "VISA" visa_paths r

unfoldable pub ends_with : String → String → Bool
ends_with suffix String.[] = String.[] == suffix
ends_with suffix (String.◌∷◌ c s) = String.◌∷◌ c s == suffix || ends_with suffix s

abbrev pub discover_loaded : Disk → String → PluginRegistry → Option PluginMetadata → PluginRegistry
discover_loaded disk path r none = r
discover_loaded disk path r (some metadata) =
    if has metadata.protocol_type r.plugins
    then r
    else (load_plugin disk metadata.protocol_type path r).1

-- One file of a directory.
unfoldable pub discover_entry : Disk → Entry → PluginRegistry → PluginRegistry
discover_entry disk entry r =
    if ends_with ".so" entry.filename
    then discover_loaded disk entry.path r (disk.load entry.path)
    else r

unfoldable pub discover_entries : Disk → List Entry → PluginRegistry → PluginRegistry
discover_entries disk [] r = r
discover_entries disk (entry ∷ entries) r =
    discover_entries disk entries (discover_entry disk entry r)

abbrev pub files_of : Option (List Entry) → List Entry
files_of none = []
files_of (some entries) = entries

unfoldable pub discover_plugins : Disk → List String → PluginRegistry → PluginRegistry
discover_plugins disk [] r = r
discover_plugins disk (search_path ∷ search_paths) r =
    discover_plugins disk search_paths
      (discover_entries disk (files_of (disk.entries search_path)) r)
