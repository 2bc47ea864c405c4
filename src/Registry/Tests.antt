-- ===== src/Registry/Tests.antt =====
-- A registry in which an instrument is created, looked up and lost.
use instrument_script_server.Base.{
  ◌≡◌, refl, some, none, true, false, [], ◌∷◌, String, Option, lookup, has, List, string_key, ◌==◌,
  if◌then◌else◌,
}
use instrument_script_server.Json.{Json, text, array, object, object_of, items, null, at}
use instrument_script_server.Registry.{
  Registry, Launch, no_instruments, create_instrument_from_json, protocol_type_of, start_all,
}
use instrument_script_server.Registry.Lookup.{get_response_type, command_expects_response, type_is}
use instrument_script_server.Registry.Invariant.{
  IsValid, Call, creates, removes, apply_calls, apply_calls-no_instruments-IsValid,
}
use instrument_script_server.Registry.Creation.{
  Created, create-Created, create-no_protocol, start_all-dead_worker,
}
use instrument_script_server.Registry.Lookup.{get_response_type-expects}
use instrument_script_server.Proxy.{Proxy, new_proxy}
use instrument_script_server.Registry.Yaml.{
  Scalars, Entries, entry, scalar, end_of_map, last_value, yaml_to_json-last,
}
use instrument_script_server.Registry.ApiRef.{
  Files, Resolved, strip_file_scheme, resolve_api_ref-Resolved,
}
use instrument_script_server.Samples.{values}

abbrev plain : Launch
plain = record {
  plugin_path = λ t. "plugins/visa.so";
  queue_made = true;
  spawned = true;
  alive = true;
}

abbrev dmm_def : Json
dmm_def = object_of (
    ("channel_groups", array (items []))
    ∷ (
      "commands",
      object_of (("READ", object_of (("outputs", array (items (text "v" ∷ []))) ∷ [])) ∷ []),
    )
    ∷ ("io", array (items (object_of (("name", text "v") ∷ ("type", text "float") ∷ []) ∷ [])))
    ∷ ("protocol", object_of (("type", text "visa") ∷ []))
    ∷ [])

abbrev with_dmm : Registry
with_dmm =
    (create_instrument_from_json values plain "DMM1" (some null) (some dmm_def) no_instruments).1

abbrev history : List (Call values)
history =
    creates plain "DMM1" (some null) (some dmm_def)
    ∷ creates plain "DMM1" none none
    ∷ removes "DMM1"
    ∷ creates plain "DMM1" (some null) (some dmm_def)
    ∷ []

apply_calls-no_instruments-IsValid_example : IsValid (apply_calls values no_instruments history)
apply_calls-no_instruments-IsValid_example = apply_calls-no_instruments-IsValid values history

get_response_type-expects_example : command_expects_response "DMM1" "READ" with_dmm ≡ true
unfolding get_response_type create_instrument_from_json lookup has
    instrument_script_server.Proxy.start instrument_script_server.Registry.store_metadata
    instrument_script_server.Base.insert instrument_script_server.Base.place
    instrument_script_server.Registry.Lookup.find_command_def
    instrument_script_server.Registry.Lookup.search_entries
get_response_type-expects_example = get_response_type-expects "DMM1" "READ" "float" with_dmm refl

create-Created_example :
    Created "DMM1" no_instruments
      (create_instrument_from_json values plain "DMM1" (some null) (some dmm_def) no_instruments)
    × ((create_instrument_from_json values plain "DMM1" (some null) (some dmm_def) no_instruments).0
          ≡ some true
        → has "DMM1" no_instruments.instruments ≡ false)
create-Created_example =
    create-Created values plain "DMM1" (some null) (some dmm_def) no_instruments

create-no_protocol_example :
    ((create_instrument_from_json values plain "DMM1"
        (values.dump null)
        (values.dump null)
        no_instruments).0
      ≡ none)
    × (has "DMM1"
          (create_instrument_from_json values plain "DMM1"
            (values.dump null)
            (values.dump null)
            no_instruments).1.metadata
        ≡ true)
    × (has "DMM1"
          (create_instrument_from_json values plain "DMM1"
            (values.dump null)
            (values.dump null)
            no_instruments).1.instruments
        ≡ false)
unfolding has lookup instrument_script_server.Json.Finite.finite
create-no_protocol_example =
    create-no_protocol values plain "DMM1" null null no_instruments refl refl

start_all-dead_worker_example : start_all (λ n. false) true true true with_dmm ≡ none
unfolding create_instrument_from_json lookup has instrument_script_server.Proxy.start
    instrument_script_server.Base.insert instrument_script_server.Registry.store_metadata
    instrument_script_server.Base.place
start_all-dead_worker_example =
    start_all-dead_worker (λ n. false) true "DMM1"
      (record (new_proxy "DMM1") { running = true; queue_open = true }) with_dmm
      (apply_calls-no_instruments-IsValid values
        (creates plain "DMM1" (some null) (some dmm_def) ∷ []))
      refl refl

abbrev scalars : Scalars
scalars = record { as_int64 = λ s. none; as_double = λ s. none; as_bool = λ s. none }

abbrev twice : Entries
twice = entry (some "name") (scalar "DMM1") (entry (some "name") (scalar "DMM2") end_of_map)

yaml_to_json-last_example :
    at "name" (object_of (("name", text "DMM2") ∷ [])) ≡ last_value scalars "name" twice none
unfolding instrument_script_server.Registry.Yaml.yaml_to_json instrument_script_server.Base.insert
    has lookup instrument_script_server.Base.place instrument_script_server.Base.replace
yaml_to_json-last_example =
    yaml_to_json-last scalars "name" twice (object_of (("name", text "DMM2") ∷ [])) refl

abbrev files : Files
files = record {
  exists = λ p. p == "/work/dmm.yaml";
  is_absolute = λ p. false;
  canonical = λ p. p;
  parent_path = λ p. "/etc";
  current_path = "/work";
  join = λ a b. if a == "/work" then "/work/dmm.yaml" else "/etc/dmm.yaml";
}

resolve_api_ref-Resolved_example :
    Resolved files (strip_file_scheme "file://dmm.yaml") "/etc/config.yaml" "/work/dmm.yaml"
unfolding instrument_script_server.Registry.ApiRef.resolve_api_ref strip_file_scheme
    instrument_script_server.Registry.ApiRef.strip_prefix
resolve_api_ref-Resolved_example =
    resolve_api_ref-Resolved files "file://dmm.yaml" "/etc/config.yaml" "/work/dmm.yaml" refl
