-- ===== src/Wire.antt =====
-- include/instrument-server/SerializedCommand.hpp and src/SerializedCommand.cpp: commands and
-- responses and their JSON texts. `none` stands for an exception. Times of creation are left out:
-- no statement reads them.
pub mod Params
pub mod Commands
pub mod Responses
mod Tests
use instrument_script_server.Base.{
  ◌==◌, ◌-◌, ◌%◌, ◌^◌, ℕ, ℤ, pos, negsuc, String, Bool, true, false, Option, none, some, List, [],
  ◌∷◌, map, Dict, lookup, insert, ◌>>=◌, string_key, if◌then◌else◌, is_some,
}
use instrument_script_server.Json.{
  Json, integer, boolean, floating, text, array, object, null, object_of, items, elements, members,
  contains, as_text, as_boolean, at, is_object,
}
use instrument_script_server.Json.Codec.{JsonText}

-- std::variant<double, int64_t, std::string, bool, std::vector<double>>
pub data ParamValue : Type 0 where
  double : ℕ → ParamValue
  int64 : ℤ → ParamValue
  string : String → ParamValue
  bool : Bool → ParamValue
  doubles : List ℕ → ParamValue

pub record SerializedCommand : Type 0 where
  pub id : String
  pub instrument_name : String
  pub verb : String
  pub params : Dict String ParamValue
  pub expects_response : Bool
  pub timeout : ℤ
  pub sync_token : Option ℕ
  pub is_sync_barrier : Bool

pub record CommandResponse : Type 0 where
  pub command_id : String
  pub instrument_name : String
  pub success : Bool
  pub error_code : ℤ
  pub error_message : String
  pub text_response : String
  pub return_value : Option ParamValue
  pub has_large_data : Bool
  pub buffer_id : String
  pub element_count : ℕ
  pub data_type : String

-- A command and a response as their declarations leave them.
abbrev pub new_command : SerializedCommand
new_command = record {
  id = "";
  instrument_name = "";
  verb = "";
  params = [];
  expects_response = false;
  timeout = pos 5000;
  sync_token = none;
  is_sync_barrier = false;
}

abbrev pub new_response : CommandResponse
new_response = record {
  command_id = "";
  instrument_name = "";
  success = false;
  error_code = pos 0;
  error_message = "";
  text_response = "";
  return_value = none;
  has_large_data = false;
  buffer_id = "";
  element_count = 0;
  data_type = "";
}

abbrev pub value_json : ParamValue → Json
value_json (double d) = floating d
value_json (int64 z) = integer z
value_json (string s) = text s
value_json (bool b) = boolean b
value_json (doubles ds) = array (items (map floating ds))

-- The loop over `cmd.params`, with the object made so far.
unfoldable pub params_json : Dict String ParamValue → Dict String Json → Dict String Json
params_json [] acc = acc
params_json ((k, v) ∷ ps) acc = params_json ps (insert k (value_json v) acc)

abbrev pub insert_some {ℓ} :
    {A : Type ℓ} → String → (A → Json) → Option A → Dict String Json → Dict String Json
insert_some k f none m = m
insert_some k f (some a) m = insert k (f a) m

-- `token` is the command's sync token.
unfoldable pub members_with : SerializedCommand → Option ℕ → Dict String Json
members_with cmd token = insert "params" (object_of (params_json cmd.params [])) (
    insert_some "sync_token" (λ t. integer (pos t)) token
      (insert "timeout_ms" (integer cmd.timeout) (
        insert "expects_response" (boolean cmd.expects_response) (
          insert "verb" (text cmd.verb)
            (insert "instrument_name" (text cmd.instrument_name) (insert "id" (text cmd.id) []))))))

unfoldable pub command_members : SerializedCommand → Dict String Json
command_members cmd = members_with cmd cmd.sync_token

abbrev pub value_type : ParamValue → String
value_type (double d) = "double"
value_type (int64 z) = "int64"
value_type (string s) = "string"
value_type (bool b) = "bool"
value_type (doubles ds) = "array"

abbrev pub insert_value : Option ParamValue → Dict String Json → Dict String Json
insert_value none m = m
insert_value (some v) m =
    insert "return_type" (text (value_type v)) (insert "return_value" (value_json v) m)

abbrev pub insert_buffer : CommandResponse → Bool → Dict String Json → Dict String Json
insert_buffer resp large m =
    if large
    then insert "data_type" (text resp.data_type) (
        insert "element_count" (integer (pos resp.element_count))
          (insert "buffer_id" (text resp.buffer_id) m))
    else m

-- `value` and `large` are the response's return value and its flag for a large buffer.
unfoldable pub response_with : CommandResponse → Option ParamValue → Bool → Dict String Json
response_with resp value large = insert_buffer resp large (
    insert "has_large_data" (boolean large) (
      insert_value value (
        insert "text_response" (text resp.text_response) (
          insert "error_message" (text resp.error_message) (
            insert "error_code" (integer resp.error_code) (
              insert "success" (boolean resp.success) (
                insert "instrument_name" (text resp.instrument_name)
                  (insert "command_id" (text resp.command_id) []))))))))

unfoldable pub response_members : CommandResponse → Dict String Json
response_members resp = response_with resp resp.return_value resp.has_large_data

-- static_cast<uint64_t> of an int64_t.
abbrev pub to_uint64 : ℤ → ℕ
to_uint64 (pos n) = n % 2 ^ 64
to_uint64 (negsuc n) = (2 ^ 64 - 1 - n % 2 ^ 64) % 2 ^ 64

-- cmd.params[key] = value, for an item that is not passed over.
abbrev pub put_param : String → Option ParamValue → Dict String ParamValue → Dict String ParamValue
put_param k none ps = ps
put_param k (some v) ps = insert k v ps

module _ (J : JsonText) where
  open J use {Text, dump, parse, to_double, to_integer}

  -- get<int64_t> and get<uint64_t>, which throw on a Boolean.
  abbrev pub as_integer : Json → Option ℤ
  as_integer (integer z) = some z
  as_integer (floating d) = some (to_integer d)
  as_integer _ = none

  -- get<int>, which also reads a Boolean.
  abbrev pub as_int : Json → Option ℤ
  as_int (boolean true) = some (pos 1)
  as_int (boolean false) = some (pos 0)
  as_int j = as_integer j

  -- get<double>
  abbrev pub as_double : Json → Option ℕ
  as_double (floating d) = some d
  as_double (integer z) = some (to_double z)
  as_double _ = none

  -- get<std::vector<double>>
  unfoldable pub as_doubles : List Json → Option (List ℕ)
  as_doubles [] = some []
  as_doubles (j ∷ js) = do d ← as_double j; ds ← as_doubles js; some (d ∷ ds)

  unfoldable pub array_of : Json → Option (Option ParamValue)
  array_of (array js) = do ds ← as_doubles (elements (array js)); some (some (doubles ds))
  array_of _ = none

  -- One entry of the loop over the items of "params"; `some none` passes the item over.
  unfoldable pub param_of : Json → Option (Option ParamValue)
  param_of (floating d) = some (some (double d))
  param_of (integer z) = some (some (int64 z))
  param_of (text s) = some (some (string s))
  param_of (boolean b) = some (some (bool b))
  param_of (array js) = do ds ← as_doubles (elements (array js)); some (some (doubles ds))
  param_of _ = some none

  unfoldable pub params_of :
      Dict String Json → Dict String ParamValue → Option (Dict String ParamValue)
  params_of [] acc = some acc
  params_of ((k, j) ∷ js) acc = do v ← param_of j; params_of js (put_param k v acc)

  -- if (j.contains("sync_token")) cmd.sync_token = j["sync_token"];
  abbrev pub token_of : Option Json → Option (Option ℕ)
  token_of none = some none
  token_of (some j) = do z ← as_integer j; some (some (to_uint64 z))

  abbrev pub params_member : Option Json → Option (Dict String ParamValue)
  params_member none = some []
  params_member (some j) = if is_object j then params_of (members j) [] else some []

  unfoldable pub command_of : Json → Option SerializedCommand
  command_of j = do
    id ← at "id" j >>= as_text
    name ← at "instrument_name" j >>= as_text
    verb ← at "verb" j >>= as_text
    expects ← at "expects_response" j >>= as_boolean
    timeout ← at "timeout_ms" j >>= as_integer
    token ← token_of (at "sync_token" j)
    params ← params_member (at "params" j)
    some (record new_command {
      id = id;
      instrument_name = name;
      verb = verb;
      params = params;
      expects_response = expects;
      timeout = timeout;
      sync_token = token;
    })

  unfoldable pub serialize_command : SerializedCommand → Text
  serialize_command cmd = dump (object_of (command_members cmd))

  unfoldable pub deserialize_command : Text → Option SerializedCommand
  deserialize_command json = parse json >>= command_of

  unfoldable pub serialize_response : CommandResponse → Text
  serialize_response resp = dump (object_of (response_members resp))

  -- The conversion that "return_type" names; an unknown name leaves no value.
  unfoldable pub value_of : String → Json → Option (Option ParamValue)
  value_of type j =
      if type == "double"
      then (do d ← as_double j; some (some (double d)))
      else if type == "int64"
      then (do z ← as_integer j; some (some (int64 z)))
      else if type == "string"
      then (do s ← as_text j; some (some (string s)))
      else if type == "bool"
      then (do b ← as_boolean j; some (some (bool b)))
      else if type == "array"
      then (array_of j)
      else some none

  abbrev pub return_of : Option Json → Option Json → Option (Option ParamValue)
  return_of (some v) (some t) = do type ← as_text t; value_of type v
  return_of _ _ = some none

  abbrev pub buffer_fields : Json → CommandResponse → Option CommandResponse
  buffer_fields j resp = do
    id ← at "buffer_id" j >>= as_text
    count ← at "element_count" j >>= as_integer
    type ← at "data_type" j >>= as_text
    some (record resp {
      has_large_data = true;
      buffer_id = id;
      element_count = to_uint64 count;
      data_type = type;
    })

  -- The fields of a large buffer, read only if the response has one.
  abbrev pub buffer_of : Json → Option Json → CommandResponse → Option CommandResponse
  buffer_of j none resp = some resp
  buffer_of j (some h) resp = do
    large ← as_boolean h
    if large then buffer_fields j resp else some (record resp { has_large_data = false })

  unfoldable pub response_of : Json → Option CommandResponse
  response_of j = do
    id ← at "command_id" j >>= as_text
    name ← at "instrument_name" j >>= as_text
    ok ← at "success" j >>= as_boolean
    code ← at "error_code" j >>= as_int
    message ← at "error_message" j >>= as_text
    reply ← at "text_response" j >>= as_text
    value ← return_of (at "return_value" j) (at "return_type" j)
    buffer_of j (at "has_large_data" j) (record new_response {
      command_id = id;
      instrument_name = name;
      success = ok;
      error_code = code;
      error_message = message;
      text_response = reply;
      return_value = value;
    })

  unfoldable pub deserialize_response : Text → Option CommandResponse
  deserialize_response json = parse json >>= response_of
