-- ===== src/Handlers.antt =====
-- src/server/CommandHandlers.cpp: the handlers of the commands, on the server's registry, jobs and plugins. A reply is
-- the return code and the members of `out`. The singletons are one record.
pub mod Plugins
pub mod Instruments
pub mod Measure
pub mod Jobs
pub mod Http
pub mod Verdict
pub mod Replies
pub mod Requests
pub mod Effects
pub mod Service
mod Tests
use instrument_script_server.Base.{
  ℕ, ℤ, String, Bool, true, false, Option, none, some, List, [], ◌∷◌, Dict, lookup, is_empty,
  if◌then◌else◌, string_key, ◌==◌, not,
}
use instrument_script_server.Json.{Json, boolean, text, members, is_object, as_text, as_boolean}
use instrument_script_server.Registry.{Registry}
use instrument_script_server.JobManager.{JobManager}
use instrument_script_server.Plugins.{Disk, PluginRegistry}
use instrument_script_server.Context.{CallResult, World}

pub record Server : Type 0 where
  pub registry : Registry
  pub jobs : JobManager
  pub plugins : PluginRegistry
  -- The once-flags of handle_discover and handle_plugins.
  pub discovered : Bool
  pub builtins_loaded : Bool

-- What happens outside while a handler runs: the disk; what the creation of a worker and a configuration give; the
-- workers that live; the daemon: whether it starts, whether its pid file names a live process, whether
-- it runs in this process; a script, with its results or the text of its error; the clock and the
-- times of the jobs; the text of a JSON value, and of an exception; whether `dump` writes an object,
-- which throws where a text is not UTF-8.
pub record Host : Type 0 where
  pub disk : Disk
  pub queue_made : Bool
  pub spawned : Bool
  pub worker_alive : Bool
  pub load_config : String → Option Json
  pub load_api : String → String → Option Json
  pub is_alive : String → Bool
  pub daemon_starts : Bool
  pub daemon_runs : Bool
  pub daemon_here : Bool
  pub daemon_pid : ℤ
  pub script : String → Registry → Option String × List CallResult × Registry
  pub world : World
  pub now_ms : ℕ
  pub job_time : String → String → ℤ
  pub dump_text : Json → String
  pub dumps : Dict String Json → Bool
  pub decimal_text : ℤ → String
  pub file_name : String → String
  pub what : String

abbrev pub Reply : Type 0
Reply = ℕ × Dict String Json

-- A handler replies, throws on to its caller with the server as it was, throws with the server changed, or ends
-- the process.
pub data HandlerOutcome : Type 0 where
  replied : Reply → Server → HandlerOutcome
  thrown : HandlerOutcome
  thrown_in : Server → HandlerOutcome
  ended : HandlerOutcome

abbrev pub refuse : String → Reply
refuse message = (1, ("error", text message) ∷ ("ok", boolean false) ∷ [])

-- params.value(key, d) for a text and a Boolean.
abbrev pub default_of {ℓ} : {A : Type ℓ} → A → (Json → Option A) → Option Json → Option A
default_of d read none = some d
default_of d read (some j) = read j

unfoldable pub text_value : String → String → Json → Option String
text_value key d params =
    if is_object params then default_of d as_text (lookup key (members params)) else none

unfoldable pub bool_value : String → Bool → Json → Option Bool
bool_value key d params =
    if is_object params then default_of d as_boolean (lookup key (members params)) else none

unfoldable pub json_value : String → Json → Json → Option Json
json_value key d params =
    if is_object params then default_of d some (lookup key (members params)) else none

-- The rest of a handler, behind a read that may throw.
abbrev pub with_value {ℓ} : {A : Type ℓ} → Option A → (A → HandlerOutcome) → HandlerOutcome
with_value none f = thrown
with_value (some a) f = f a

-- A text that must not be empty.
abbrev pub with_text : String → Server → (String → HandlerOutcome) → Option String → HandlerOutcome
with_text message s f none = thrown
with_text message s f (some v) = if v == "" then replied (refuse message) s else f v
