-- ===== src/Wire/Tests.antt =====
-- A command and a response written and read.
use instrument_script_server.Json.Finite.{is_finite}
use instrument_script_server.Base.{
  ◌^◌, ◌+◌, ◌*◌, arith, pos, String, [], ◌∷◌, some, none, true, false, ◌≡◌, refl, Dict, lookup,
  string_key, ◌>>=◌, arith, ◌*◌,
}
use instrument_script_server.Wire.{
  ParamValue, double, int64, doubles, SerializedCommand, CommandResponse, new_command, new_response,
  serialize_command, deserialize_command, serialize_response, deserialize_response,
}
use instrument_script_server.Wire.Params.{keep}
use instrument_script_server.Wire.Commands.{command_arrives}
use instrument_script_server.Wire.Responses.{
  response_arrives, response_throws, without_stale_buffer,
}
use instrument_script_server.Samples.{values}

abbrev barrier_command : SerializedCommand
barrier_command = record new_command {
  id = "DAC1-1";
  verb = "SET";
  params = ("channel", int64 (pos 2)) ∷ ("voltage", double (2047 * 2 ^ 52)) ∷ [];
  sync_token = some 7;
  is_sync_barrier = true;
}

abbrev large_response : CommandResponse
large_response = record new_response {
  command_id = "DMM1-4";
  success = true;
  return_value = some (doubles (0 ∷ []));
  has_large_data = true;
  buffer_id = "buffer_1";
  element_count = 1000;
  data_type = "float64";
}

command_arrives_example :
    (ps : Dict String ParamValue) × (deserialize_command values
        (serialize_command values barrier_command)
      ≡ some (record barrier_command { params = ps; is_sync_barrier = false }))
    × ((j : String) → lookup j ps ≡ (lookup j barrier_command.params >>= keep))
unfolding lookup
command_arrives_example =
    command_arrives values barrier_command (refl, (refl, tt)) (tt, (tt, tt)) (ground arith)

response_arrives_example :
    deserialize_response values (serialize_response values large_response)
    ≡ some (without_stale_buffer large_response)
unfolding is_finite
response_arrives_example = response_arrives values large_response (refl, tt) (ground arith)

abbrev nan_response : CommandResponse
nan_response = record new_response {
  success = true;
  return_value = some (double (2047 * 2 ^ 52 + 1));
}

response_throws_example :
    deserialize_response values (serialize_response values nan_response) ≡ none
unfolding is_finite
response_throws_example = response_throws values nan_response (2047 * 2 ^ 52 + 1) refl refl
