-- ===== src/Wire/Responses.antt =====
-- A response that is written and read back.
use instrument_script_server.Base.{
  ℕ, pos, String, ◌≡◌, refl, ap, ◌∙◌, Bool, true, false, Option, none, some, arith, Dict, lookup,
  insert, has, replace, place, map_option, ◌>>=◌, if◌then◌else◌, string_key, ◌<◌, ◌^◌,
}
use instrument_script_server.Json.{Json, text, boolean, integer, object_of, at}
use instrument_script_server.Json.Finite.{finite, is_finite}
use instrument_script_server.Json.Codec.{JsonText}
use instrument_script_server.Wire.{
  ParamValue, double, int64, string, bool, doubles, value_json, value_type, CommandResponse,
  response_with, response_members, value_of, array_of, return_of, buffer_of, response_of,
  serialize_response, deserialize_response,
}
use instrument_script_server.Wire.Params.{ArrayFinite, as_doubles-finite}
use instrument_script_server.Wire.Commands.{at-finite}

-- The members of a response's object, by their keys.
module _ (resp : CommandResponse) where
  record Members (v : Option ParamValue) (large : Bool) : Type 0 where
    command_id : lookup "command_id" (response_with resp v large) ≡ some (text resp.command_id)
    instrument_name :
        lookup "instrument_name" (response_with resp v large) ≡ some (text resp.instrument_name)
    success : lookup "success" (response_with resp v large) ≡ some (boolean resp.success)
    error_code : lookup "error_code" (response_with resp v large) ≡ some (integer resp.error_code)
    error_message :
        lookup "error_message" (response_with resp v large) ≡ some (text resp.error_message)
    text_response :
        lookup "text_response" (response_with resp v large) ≡ some (text resp.text_response)
    return_value : lookup "return_value" (response_with resp v large) ≡ map_option value_json v
    return_type :
        lookup "return_type" (response_with resp v large) ≡ map_option (λ x. text (value_type x)) v
    has_large_data : lookup "has_large_data" (response_with resp v large) ≡ some (boolean large)
    buffer_id :
        lookup "buffer_id" (response_with resp v large)
        ≡ (if large then some (text resp.buffer_id) else none)
    element_count :
        lookup "element_count" (response_with resp v large)
        ≡ (if large then some (integer (pos resp.element_count)) else none)
    data_type :
        lookup "data_type" (response_with resp v large)
        ≡ (if large then some (text resp.data_type) else none)

  members_lem : (v : Option ParamValue) (large : Bool) → Members v large
  unfolding response_with lookup insert has replace place
  members_lem none false = record {
    command_id = refl;
    instrument_name = refl;
    success = refl;
    error_code = refl;
    error_message = refl;
    text_response = refl;
    return_value = refl;
    return_type = refl;
    has_large_data = refl;
    buffer_id = refl;
    element_count = refl;
    data_type = refl;
  }
  members_lem none true = record {
    command_id = refl;
    instrument_name = refl;
    success = refl;
    error_code = refl;
    error_message = refl;
    text_response = refl;
    return_value = refl;
    return_type = refl;
    has_large_data = refl;
    buffer_id = refl;
    element_count = refl;
    data_type = refl;
  }
  members_lem (some x) false = record {
    command_id = refl;
    instrument_name = refl;
    success = refl;
    error_code = refl;
    error_message = refl;
    text_response = refl;
    return_value = refl;
    return_type = refl;
    has_large_data = refl;
    buffer_id = refl;
    element_count = refl;
    data_type = refl;
  }
  members_lem (some x) true = record {
    command_id = refl;
    instrument_name = refl;
    success = refl;
    error_code = refl;
    error_message = refl;
    text_response = refl;
    return_value = refl;
    return_type = refl;
    has_large_data = refl;
    buffer_id = refl;
    element_count = refl;
    data_type = refl;
  }

-- What the other side reads: without a large buffer its three fields are as declared.
abbrev pub without_stale_buffer : CommandResponse → CommandResponse
without_stale_buffer resp =
    if resp.has_large_data
    then resp
    else record resp { buffer_id = ""; element_count = 0; data_type = "" }

-- A value whose doubles are all finite.
abbrev pub ValueFinite : Option ParamValue → Type 0
ValueFinite none = Unit
ValueFinite (some (double d)) = is_finite d ≡ true
ValueFinite (some v) = ArrayFinite v

module _ (J : JsonText) where
  value_of-finite :
      (v : ParamValue)
      → ValueFinite (some v)
      → value_of J (value_type v) (finite (value_json v)) ≡ some (some v)
  unfolding value_of array_of finite
  value_of-finite (double d) h = rw h
  value_of-finite (int64 z) h = refl
  value_of-finite (string s) h = refl
  value_of-finite (bool b) h = refl
  value_of-finite (doubles ds) h = rw (as_doubles-finite J ds h)

  return_of-finite :
      (v : Option ParamValue)
      → ValueFinite v
      → return_of J
          (map_option finite (map_option value_json v))
          (map_option finite (map_option (λ x. text (value_type x)) v))
        ≡ some v
  unfolding finite
  return_of-finite none h = refl
  return_of-finite (some v) h = value_of-finite v h

  abbrev parsed : CommandResponse → Option ParamValue → CommandResponse
  parsed resp v = record resp {
    return_value = v;
    has_large_data = false;
    buffer_id = "";
    element_count = 0;
    data_type = "";
  }

  response_of-reads :
      (j : Json) (resp : CommandResponse) (rv rt : Option Json)
      → at "command_id" j ≡ some (text resp.command_id)
      → at "instrument_name" j ≡ some (text resp.instrument_name)
      → at "success" j ≡ some (boolean resp.success)
      → at "error_code" j ≡ some (integer resp.error_code)
      → at "error_message" j ≡ some (text resp.error_message)
      → at "text_response" j ≡ some (text resp.text_response)
      → at "return_value" j ≡ rv
      → at "return_type" j ≡ rt
      → at "has_large_data" j ≡ some (boolean resp.has_large_data)
      → response_of J j ≡ (
          return_of J rv rt >>= λ v.
          buffer_of J j (some (boolean resp.has_large_data)) (parsed resp v))
  unfolding response_of
  response_of-reads j resp rv rt a b c d e f g h k = rw (a, b, c, d, e, f, g, h, k)

  buffer_of-reads :
      (j : Json) (resp : CommandResponse) (v : Option ParamValue) (large : Bool)
      → resp.element_count < 2 ^ 64
      → at "buffer_id" j ≡ (if large then some (text resp.buffer_id) else none)
      → at "element_count" j ≡ (if large then some (integer (pos resp.element_count)) else none)
      → at "data_type" j ≡ (if large then some (text resp.data_type) else none)
      → buffer_of J j (some (boolean large)) (parsed resp v)
        ≡ some (without_stale_buffer (record resp { return_value = v; has_large_data = large }))
  buffer_of-reads j resp v true n a b c = rw (a, b, c) (ground arith)
  buffer_of-reads j resp v false n a b c = refl

  module _ (resp : CommandResponse) where
    abbrev sent : Dict String Json
    sent = response_members resp

    ms : Members resp resp.return_value resp.has_large_data
    ms = members_lem resp resp.return_value resp.has_large_data

    as_read :
        (k : String) {v : Option Json}
        → lookup k sent ≡ v
        → at k (finite (object_of sent)) ≡ map_option finite v
    as_read k e = at-finite k sent ∙ ap (map_option finite) e

    finite_if :
        (large : Bool) (j : Json)
        → map_option finite (if large then some j else none)
          ≡ (if large then some (finite j) else none)
    finite_if true j = refl
    finite_if false j = refl

    -- The response as the listener reads it, up to the return value and the large buffer.
    read_lem : deserialize_response J (serialize_response J resp) ≡ (
        return_of J
          (map_option finite (map_option value_json resp.return_value))
          (map_option finite (map_option (λ x. text (value_type x)) resp.return_value))
        >>= λ v.
            buffer_of J
              (finite (object_of sent))
              (some (boolean resp.has_large_data))
              (parsed resp v))
    unfolding deserialize_response serialize_response response_members finite
    read_lem = rw (J.parse-dump (object_of sent)) (
        response_of-reads (finite (object_of sent)) resp _ _ (as_read "command_id" ms.command_id)
          (as_read "instrument_name" ms.instrument_name) (as_read "success" ms.success)
          (as_read "error_code" ms.error_code) (as_read "error_message" ms.error_message)
          (as_read "text_response" ms.text_response) (as_read "return_value" ms.return_value)
          (as_read "return_type" ms.return_type) (as_read "has_large_data" ms.has_large_data))

    -- A response whose return value holds no NaN or infinite double, and whose count of elements is below 2 ^ 64,
    -- arrives as it was sent, with the fields of a large buffer only if it has one.
    pub response_arrives :
        ValueFinite resp.return_value
        → resp.element_count < 2 ^ 64
        → deserialize_response J (serialize_response J resp) ≡ some (without_stale_buffer resp)
    unfolding response_members finite
    response_arrives h n =
        rw (read_lem, return_of-finite resp.return_value h)
          (buffer_of-reads (finite (object_of sent)) resp resp.return_value resp.has_large_data n
            (as_read "buffer_id" ms.buffer_id ∙ finite_if resp.has_large_data (text resp.buffer_id))
            (as_read "element_count" ms.element_count
              ∙ finite_if resp.has_large_data (integer (pos resp.element_count)))
            (as_read "data_type" ms.data_type
              ∙ finite_if resp.has_large_data (text resp.data_type)))

    -- A return value that is a double and not finite makes the reader throw.
    pub response_throws :
        (d : ℕ)
        → resp.return_value ≡ some (double d)
        → is_finite d ≡ false
        → deserialize_response J (serialize_response J resp) ≡ none
    unfolding value_of finite
    response_throws d e h = rw (read_lem, e) (rw h refl)
