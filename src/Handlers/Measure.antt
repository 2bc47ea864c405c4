-- ===== src/Handlers/Measure.antt =====
-- src/server/CommandHandlers.cpp: the handler that runs a script and reports its results.
use instrument_script_server.Base.{
  ℕ, ◌+◌, ◌/◌, pos, String, true, false, Option, none, some, List, [], ◌∷◌, Dict, insert, is_empty,
  if◌then◌else◌, string_key,
}
use instrument_script_server.Json.{Json, null, boolean, text, integer, array, items, object_of}
use instrument_script_server.Wire.{ParamValue, doubles, value_json}
use instrument_script_server.Registry.{Registry, list_instruments}
use instrument_script_server.Context.{CallResult}
use instrument_script_server.Handlers.{
  Server, Host, Reply, HandlerOutcome, replied, refuse, text_value, bool_value, with_value,
  with_text,
}

unfoldable pub params_members : Dict String ParamValue → Dict String Json → Dict String Json
params_members [] m = m
params_members ((k, v) ∷ params) m = params_members params (insert k (value_json v) m)

-- A JSON value that nothing is put in stays null.
abbrev pub params_object : Dict String ParamValue → Json
params_object [] = null
params_object params = object_of (params_members params [])

abbrev pub typed_value : String → ParamValue → Json
typed_value type (doubles ds) = object_of (("type", text type) ∷ [])
typed_value type v = object_of (("type", text type) ∷ ("value", value_json v) ∷ [])

abbrev pub value_or_null : String → Option ParamValue → Json
value_or_null type none = null
value_or_null type (some v) = typed_value type v

abbrev pub measure_return : CallResult → Json
measure_return r =
    if r.has_large_data
    then object_of (
        ("buffer_id", text r.buffer_id)
        ∷ ("data_type", text r.data_type)
        ∷ ("element_count", integer (pos r.element_count))
        ∷ ("type", text "buffer")
        ∷ [])
    else value_or_null r.return_type r.return_value

abbrev pub measure_entry : ℕ → CallResult → Json
measure_entry i r = object_of (
    ("executed_at_ms", integer (pos (r.executed_at / 1000000)))
    ∷ ("index", integer (pos i))
    ∷ ("instrument", text r.instrument_name)
    ∷ ("params", params_object r.params)
    ∷ ("return", measure_return r)
    ∷ ("verb", text r.verb)
    ∷ [])

unfoldable pub measure_entries : ℕ → List CallResult → List Json
measure_entries i [] = []
measure_entries i (r ∷ results) = measure_entry i r ∷ measure_entries (i + 1) results

-- The reply for what the script gave: the text of its error, or its results.
abbrev pub script_reply : Host → String → Option String × List CallResult × Registry → Reply
script_reply host path (some error, results, r) = refuse error
script_reply host path (none, results, r) = (
  0,
  ("ok", boolean true)
      ∷ ("results", array (items (measure_entries 0 results)))
      ∷ ("script", text (host.file_name path))
      ∷ [],
)

abbrev pub run_measure : Host → String → Server → HandlerOutcome
run_measure host path s =
    if is_empty (list_instruments s.registry)
    then replied (refuse "no instruments running") s
    else (let ran = host.script path s.registry in
        replied (script_reply host path ran) (record s { registry = ran.2 }))

unfoldable pub handle_measure : Host → Json → Server → HandlerOutcome
handle_measure host params s = with_value (text_value "log_level" "info" params) (λ log_level.
    with_value (bool_value "json" false params) (λ json_output.
      with_text "missing script_path" s (λ path. run_measure host path s)
        (text_value "script_path" "" params)))
