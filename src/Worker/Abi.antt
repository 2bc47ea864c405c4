-- ===== src/Worker/Abi.antt =====
-- include/instrument-server/plugin/PluginInterface.h and the conversions of
-- src/workers/generic_worker_main.cpp. A plugin is a shared library: its state and its function
-- `plugin_execute_command` are parameters. Texts are taken to be ASCII without NUL: a byte is a
-- character.
use Prim.Native.String.{slice}
use instrument_script_server.Base.{
  ℕ, zero, ◌-◌, ℤ, pos, String, Bool, false, Option, none, some, List, [], ◌∷◌, Dict, suc,
  if◌then◌else◌, nat_eqb,
}
use instrument_script_server.Wire.{
  ParamValue, double, int64, string, bool, doubles, SerializedCommand, CommandResponse,
}

abbrev pub plugin_max_string_len : ℕ
plugin_max_string_len = 128

abbrev pub plugin_max_params : ℕ
plugin_max_params = 16

abbrev pub plugin_max_payload : ℕ
plugin_max_payload = 4096

-- strncpy(dst, src, n) into an array of zeros that has room for n + 1.
unfoldable pub copy_text : ℕ → String → String
copy_text n s = slice s 0 n

-- PluginParamValue with the members of its union that the worker sets or reads; the other types
-- carry what the plugin put there, which nobody reads.
pub data PluginParamValue : Type 0 where
  param_none : PluginParamValue
  param_int64 : ℤ → PluginParamValue
  param_double : ℕ → PluginParamValue
  param_bool : Bool → PluginParamValue
  param_string : String → PluginParamValue
  param_other : ℕ → PluginParamValue

-- `param_count` is the number of `params`.
pub record PluginCommand : Type 0 where
  pub id : String
  pub instrument_name : String
  pub verb : String
  pub params : List (String × PluginParamValue)
  pub timeout_ms : ℕ
  pub expects_response : Bool

-- Without `binary_response`, which the worker does not read.
pub record PluginResponse : Type 0 where
  pub command_id : String
  pub instrument_name : String
  pub success : Bool
  pub return_value : PluginParamValue
  pub text_response : String
  pub error_code : ℤ
  pub error_message : String
  pub has_large_data : Bool
  pub data_buffer_id : String
  pub data_element_count : ℕ
  pub data_type : ℕ

-- PluginResponse plugin_resp = {};
abbrev pub zero_response : PluginResponse
zero_response = record {
  command_id = "";
  instrument_name = "";
  success = false;
  return_value = param_none;
  text_response = "";
  error_code = pos 0;
  error_message = "";
  has_large_data = false;
  data_buffer_id = "";
  data_element_count = 0;
  data_type = 0;
}

pub record Plugin : Type 1 where
  pub State : Type 0
  -- The response is filled in place: the plugin is given the zeroed one.
  pub execute_command : State → PluginCommand → PluginResponse → State × PluginResponse

unfoldable pub to_plugin_value : ParamValue → PluginParamValue
unfolding copy_text
to_plugin_value (double d) = param_double d
to_plugin_value (int64 z) = param_int64 z
to_plugin_value (string s) = param_string (copy_text (plugin_max_string_len - 1) s)
to_plugin_value (bool b) = param_bool b
to_plugin_value (doubles ds) = param_none

-- The loop over the parameters; `n` is how many the array has room for.
unfoldable pub to_plugin_params : ℕ → Dict String ParamValue → List (String × PluginParamValue)
to_plugin_params zero ps = []
to_plugin_params (suc n) [] = []
to_plugin_params (suc n) ((k, v) ∷ ps) =
    (copy_text (plugin_max_string_len - 1) k, to_plugin_value v) ∷ to_plugin_params n ps

unfoldable pub to_plugin_command : SerializedCommand → PluginCommand
to_plugin_command cmd = record {
  id = copy_text (plugin_max_string_len - 1) cmd.id;
  instrument_name = copy_text (plugin_max_string_len - 1) cmd.instrument_name;
  verb = copy_text (plugin_max_string_len - 1) cmd.verb;
  params = to_plugin_params plugin_max_params cmd.params;
  timeout_ms = 0;
  expects_response = cmd.expects_response;
}

abbrev pub from_plugin_value : PluginParamValue → Option ParamValue
from_plugin_value (param_double d) = some (double d)
from_plugin_value (param_int64 z) = some (int64 z)
from_plugin_value (param_string s) = some (string s)
from_plugin_value (param_bool b) = some (bool b)
from_plugin_value _ = none

unfoldable pub response_data_type : ℕ → String
response_data_type code =
    if nat_eqb code 0
    then "float32"
    else if nat_eqb code 1
    then "float64"
    else if nat_eqb code 2
    then "int32"
    else if nat_eqb code 3
    then "int64"
    else "unknown"

unfoldable pub from_plugin_response : PluginResponse → CommandResponse
from_plugin_response presp = record {
  command_id = presp.command_id;
  instrument_name = presp.instrument_name;
  success = presp.success;
  error_code = presp.error_code;
  error_message = presp.error_message;
  text_response = presp.text_response;
  return_value = if presp.success then from_plugin_value presp.return_value else none;
  has_large_data = presp.has_large_data;
  buffer_id = if presp.has_large_data then presp.data_buffer_id else "";
  element_count = if presp.has_large_data then presp.data_element_count else 0;
  data_type = if presp.has_large_data then response_data_type presp.data_type else "";
}
