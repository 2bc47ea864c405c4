-- ===== src/Registry.antt =====
-- src/server/InstrumentRegistry.cpp: the instruments by name, and what their API definitions say. The proxies are
-- the registry's: a shared pointer to one is its name. A call that may throw has no result when it
-- does, and what it has changed until then stays.
pub mod Yaml
pub mod ApiRef
pub mod Lookup
pub mod Invariant
pub mod Creation
mod Tests
use instrument_script_server.Sync.{no_barriers, SyncCoordinator}
use instrument_script_server.Proxy.{Proxy, start, new_proxy}
use instrument_script_server.Json.{Json, at, as_text}
use instrument_script_server.Base.{
  Dict, List, Option, String, [], Bool, erase, if◌then◌else◌, insert, lookup, map, false, has, some,
  ◌>>=◌, none, string_key, ◌==◌, true, map_option, ◌∷◌,
}
use instrument_script_server.Json.Codec.{JsonText}

pub record InstrumentMetadata : Type 0 where
  pub name : String
  pub config : Json
  pub api_def : Json

pub record Registry : Type 0 where
  pub instruments : Dict String Proxy
  pub metadata : Dict String InstrumentMetadata
  pub sync_coordinator : SyncCoordinator

abbrev pub no_instruments : Registry
no_instruments = record { instruments = []; metadata = []; sync_coordinator = no_barriers }

-- What happens outside while an instrument is created: the plugins' paths, and what creating the queue,
-- spawning the worker and the check of its process give.
pub record Launch : Type 0 where
  pub plugin_path : String → String
  pub queue_made : Bool
  pub spawned : Bool
  pub alive : Bool

-- api_def["protocol"]["type"], read as a text.
abbrev pub protocol_type_of : Json → Option String
protocol_type_of api_def = at "protocol" api_def >>= λ p. at "type" p >>= as_text

unfoldable pub store_metadata : String → Json → Json → Registry → Registry
store_metadata name config api_def r = record r {
  metadata = insert name (record { name = name; config = config; api_def = api_def }) r.metadata;
}

unfoldable pub drop_metadata : String → Registry → Registry
drop_metadata name r = record r { metadata = erase name r.metadata }

-- What the start of the new proxy gave.
abbrev pub launched : String → Registry → Option (Bool × Proxy) → Option Bool × Registry
launched name r none = (none, r)
launched name r (some (false, p)) = (some false, drop_metadata name r)
launched name r (some (true, p)) =
    (some true, record r { instruments = insert name p r.instruments })

abbrev pub with_protocol : Launch → String → Registry → Option String → Option Bool × Registry
with_protocol env name r none = (none, r)
with_protocol env name r (some protocol_type) =
    if env.plugin_path protocol_type == ""
    then (some false, drop_metadata name r)
    else launched name r (start env.queue_made env.spawned env.alive (new_proxy name))

abbrev pub with_json :
    Launch → String → Registry → Option Json → Option Json → Option Bool × Registry
with_json env name r (some config) (some api_def) =
    with_protocol env name (store_metadata name config api_def r) (protocol_type_of api_def)
with_json env name r _ _ = (none, r)

unfoldable pub has_instrument : String → Registry → Bool
has_instrument name r = has name r.instruments

unfoldable pub get_instrument : String → Registry → Option Proxy
get_instrument name r = lookup name r.instruments

unfoldable pub get_instrument_metadata : String → Registry → Option InstrumentMetadata
get_instrument_metadata name r = lookup name r.metadata

unfoldable pub list_instruments : Registry → List String
list_instruments r = map (λ e. e.0) r.instruments

unfoldable pub remove_instrument : String → Registry → Registry
remove_instrument name r =
    if has name r.instruments
    then record r { instruments = erase name r.instruments; metadata = erase name r.metadata }
    else r

unfoldable pub stop_all : Registry → Registry
stop_all r = record r { instruments = []; metadata = [] }

-- The loop of `start_all`, over the workers that `alive` calls dead.
abbrev pub restart_one : Bool → Bool → Bool → Bool → Proxy → Option Proxy
restart_one alive queue_made spawned ready p =
    if alive then some p else map_option (λ b. b.1) (start queue_made spawned ready p)

unfoldable pub restart :
    (String → Bool) → Bool → Bool → Bool → Dict String Proxy → Option (Dict String Proxy)
restart alive queue_made spawned ready [] = some []
restart alive queue_made spawned ready ((name, p) ∷ ps) = do
  q ← restart_one (alive name) queue_made spawned ready p
  qs ← restart alive queue_made spawned ready ps
  some ((name, q) ∷ qs)

-- `none` ends the process.
unfoldable pub start_all : (String → Bool) → Bool → Bool → Bool → Registry → Option Registry
start_all alive queue_made spawned ready r = do
  ps ← restart alive queue_made spawned ready r.instruments
  some (record r { instruments = ps })

-- The result of a call that has not thrown.
abbrev pub is_true : Option Bool → Bool
is_true none = false
is_true (some b) = b

module _ (J : JsonText) where
  unfoldable pub create_instrument_from_json :
      Launch → String → J.Text → J.Text → Registry → Option Bool × Registry
  create_instrument_from_json env name config_json api_def_json r =
      if has name r.instruments
      then (some false, r)
      else with_json env name r (J.parse config_json) (J.parse api_def_json)

  -- `create_instrument` with the two files read as JSON: `none` where loading one, resolving the reference to
  -- the API or reading the name throws. Every exception is caught.
  abbrev pub create_named : Launch → Json → Option Json → Option String → Registry → Bool × Registry
  create_named env config (some api_def) (some name) r =
      let (made, r') = create_instrument_from_json env name (J.dump config) (J.dump api_def) r in
      (is_true made, r')
  create_named env config _ _ r = (false, r)

  abbrev pub create_loaded :
      Launch → (String → Option Json) → Option Json → Registry → Bool × Registry
  create_loaded env load_api (some config) r =
      create_named env config (at "api_ref" config >>= λ a. as_text a >>= load_api)
        (at "name" config >>= as_text) r
  create_loaded env load_api none r = (false, r)

  unfoldable pub create_instrument :
      Launch
      → (String → Option Json)
      → (String → String → Option Json)
      → String
      → Registry
      → Bool × Registry
  create_instrument env load load_api config_path r =
      create_loaded env (load_api config_path) (load config_path) r
