-- ===== src/Context/Tokens.antt =====
-- src/server/RuntimeContext.cpp: the tokens released in their order, and the results as JSON.
pub mod Answers
pub mod Release
pub mod Stuck
use instrument_script_server.Base.{
  ℕ, ◌/◌, pos, String, Bool, true, false, Option, none, some, List, [], ◌∷◌, Dict, lookup,
  get_elem?, set, length, push_back, map, if◌then◌else◌, nat_key, string_key, not, map_option,
  ◌>>=◌,
}
use instrument_script_server.Wire.{
  ParamValue, CommandResponse, double, int64, string, bool, doubles, value_json,
}
use instrument_script_server.Json.{Json, Fields, object_of, text, integer, array, items}
use instrument_script_server.Sync.{clear_barrier}
use instrument_script_server.Context.{
  CallResult, new_result, Future, RuntimeContext, World, list_at, get,
}
use instrument_script_server.Context.Calls.{populate}
use instrument_script_server.Context.Parallel.{continue_all}

-- A response in the result with an index; an index out of range is undefined behaviour.
abbrev pub put_answer :
    World → ℕ → CommandResponse → List CallResult → Option CallResult → Option (List CallResult)
put_answer W i resp results none = none
put_answer W i resp results (some cr) =
    some (set results i (record (populate cr resp) { executed_at = W.now }))

-- What a future gave: an exception is logged only.
abbrev pub answer_at :
    World → ℕ → Option CommandResponse → List CallResult → Option (List CallResult)
answer_at W i none results = some results
answer_at W i (some resp) results = put_answer W i resp results (get_elem? results i)

-- A future without an index gets a new result.
abbrev pub answer_new : World → Option CommandResponse → List CallResult → List CallResult
answer_new W none results = results
answer_new W (some resp) results =
    push_back (record (populate new_result resp) { executed_at = W.now }) results

-- The futures of a token from the i-th on, with the indices of their results from there on. `none` is also
-- a wait that never ends.
unfoldable pub await : World → List Future → List ℕ → List CallResult → Option (List CallResult)
await W [] inds results = some results
await W (future ∷ futures) [] results =
    get (W.answer future) >>= λ o. await W futures [] (answer_new W o results)
await W (future ∷ futures) (i ∷ inds) results = get (W.answer future) >>= λ o.
    answer_at W i o results >>= λ results'. await W futures inds results'

abbrev pub released : ℕ → RuntimeContext → List CallResult → RuntimeContext
released token c results =
    let waited = record c { collected_results = results } in
    let continued = continue_all token (list_at token c.token_instruments) waited in
    record continued { sync_coordinator = clear_barrier token continued.sync_coordinator }

unfoldable pub release : World → ℕ → RuntimeContext → Option RuntimeContext
release W token c = map_option (released token c) (
    await W (list_at token c.token_futures) (list_at token c.token_result_indices)
      c.collected_results)

unfoldable pub release_all : World → List ℕ → RuntimeContext → Option RuntimeContext
release_all W [] c = some c
release_all W (token ∷ tokens) c = release W token c >>= λ c'. release_all W tokens c'

abbrev pub without_tokens : RuntimeContext → RuntimeContext
without_tokens c = record c {
  token_order = [];
  token_instruments = [];
  token_futures = [];
  token_result_indices = [];
}

unfoldable pub process_tokens_and_wait : World → RuntimeContext → Option RuntimeContext
process_tokens_and_wait W c = map_option without_tokens (release_all W c.token_order c)

abbrev typed : String → Json → Json
typed type value = object_of (("type", text type) ∷ ("value", value) ∷ [])

-- Arrays are written without their values, like a call that returns nothing.
abbrev pub value_return : Option ParamValue → Json
value_return (some (double d)) = typed "float" (value_json (double d))
value_return (some (int64 z)) = typed "integer" (value_json (int64 z))
value_return (some (string s)) = typed "string" (value_json (string s))
value_return (some (bool b)) = typed "boolean" (value_json (bool b))
value_return _ = object_of (("type", text "void") ∷ [])

abbrev pub return_json : CallResult → Json
return_json cr =
    if cr.has_large_data
    then object_of (
        ("buffer_id", text cr.buffer_id)
        ∷ ("data_type", text cr.data_type)
        ∷ ("element_count", integer (pos cr.element_count))
        ∷ ("type", text "buffer")
        ∷ [])
    else value_return cr.return_value

unfoldable pub result_json : CallResult → Json
result_json cr = object_of (
    ("command_id", text cr.command_id)
    ∷ (add_error cr (
        ("executed_at_ms", integer (pos (cr.executed_at / 1000000)))
        ∷ ("instrument", text cr.instrument_name)
        ∷ ("return", return_json cr)
        ∷ ("verb", text cr.verb)
        ∷ [])))
  where
    add_error : CallResult → Dict String Json → Dict String Json
    add_error cr m = if cr.success then m else ("error", text cr.error_message) ∷ m

unfoldable pub collect_results_json : RuntimeContext → Json
collect_results_json c = array (items (map result_json c.collected_results))
