-- ===== src/Wire/Commands.antt =====
-- A command that is written and read back.
use instrument_script_server.Base.{
  ℕ, pos, String, ◌≡◌, refl, ap, ◌∙◌, false, Option, none, some, [], arith, Dict, lookup,
  lookup-map_values, insert, has, replace, place, map_values, Unique, Values, map_option, ◌>>=◌,
  string_key, ◌<◌, ◌^◌,
}
use instrument_script_server.Json.{Json, text, boolean, integer, object_of, at}
use instrument_script_server.Json.Finite.{finite, dict-finite_fields}
use instrument_script_server.Json.Codec.{JsonText}
use instrument_script_server.Wire.{
  ParamValue, SerializedCommand, params_json, members_with, command_members, token_of, params_of,
  params_member, command_of, serialize_command, deserialize_command,
}
use instrument_script_server.Wire.Params.{ArrayFinite, keep, params_arrive}

pub at-finite :
    (k : String) (m : Dict String Json)
    → at k (finite (object_of m)) ≡ map_option finite (lookup k m)
unfolding finite
at-finite k m = ap (lookup k) (dict-finite_fields m) ∙ lookup-map_values finite k m

-- The members of a command's object, by their keys.
module _ (cmd : SerializedCommand) where
  pub record Members (tok : Option ℕ) : Type 0 where
    pub id : lookup "id" (members_with cmd tok) ≡ some (text cmd.id)
    pub instrument_name :
        lookup "instrument_name" (members_with cmd tok) ≡ some (text cmd.instrument_name)
    pub verb : lookup "verb" (members_with cmd tok) ≡ some (text cmd.verb)
    pub expects :
        lookup "expects_response" (members_with cmd tok) ≡ some (boolean cmd.expects_response)
    pub timeout : lookup "timeout_ms" (members_with cmd tok) ≡ some (integer cmd.timeout)
    pub token : lookup "sync_token" (members_with cmd tok) ≡ map_option (λ t. integer (pos t)) tok
    pub params :
        lookup "params" (members_with cmd tok) ≡ some (object_of (params_json cmd.params []))

  members_lem : (token : Option ℕ) → Members token
  unfolding members_with lookup insert has replace place
  members_lem none = record {
    id = refl;
    instrument_name = refl;
    verb = refl;
    expects = refl;
    timeout = refl;
    token = refl;
    params = refl;
  }
  members_lem (some t) = record {
    id = refl;
    instrument_name = refl;
    verb = refl;
    expects = refl;
    timeout = refl;
    token = refl;
    params = refl;
  }

-- Tokens are 64-bit numbers.
abbrev pub TokenFits : Option ℕ → Type 0
TokenFits none = Unit
TokenFits (some t) = t < 2 ^ 64

module _ (J : JsonText) where
  token_of-finite :
      (token : Option ℕ)
      → TokenFits token
      → token_of J (map_option finite (map_option (λ t. integer (pos t)) token)) ≡ some token
  unfolding finite
  token_of-finite none h = refl
  token_of-finite (some t) h = ground arith

  command_of-reads :
      (j : Json) (cmd : SerializedCommand) (ps : Dict String ParamValue)
      → at "id" j ≡ some (text cmd.id)
      → at "instrument_name" j ≡ some (text cmd.instrument_name)
      → at "verb" j ≡ some (text cmd.verb)
      → at "expects_response" j ≡ some (boolean cmd.expects_response)
      → at "timeout_ms" j ≡ some (integer cmd.timeout)
      → token_of J (at "sync_token" j) ≡ some cmd.sync_token
      → params_member J (at "params" j) ≡ some ps
      → command_of J j ≡ some (record cmd { params = ps; is_sync_barrier = false })
  unfolding command_of
  command_of-reads j cmd ps a b c d e f g = rw (a, b, c, d, e, f, g)

  params_member-finite :
      (m : Dict String Json)
      → params_member J (some (finite (object_of m))) ≡ params_of J (map_values finite m) []
  unfolding finite
  params_member-finite m = ap (λ d. params_of J d []) (dict-finite_fields m)

  -- What a command becomes on its way to the worker, when it holds each parameter once, its token is below 2 ^ 64 and no
  -- array among its parameters holds a NaN or infinite double: every field arrives but the barrier mark,
  -- which no member carries, and the parameters that are single doubles and not finite.
  pub command_arrives :
      (cmd : SerializedCommand)
      → Unique cmd.params
      → Values ArrayFinite cmd.params
      → TokenFits cmd.sync_token
      → (ps : Dict String ParamValue) × (deserialize_command J (serialize_command J cmd)
          ≡ some (record cmd { params = ps; is_sync_barrier = false }))
        × ((j : String) → lookup j ps ≡ (lookup j cmd.params >>= keep))
  unfolding serialize_command deserialize_command command_members finite
  command_arrives cmd u h t =
      let (ps, e, arrive) = params_arrive J cmd.params u h in
      (ps, rw (J.parse-dump (object_of (command_members cmd))) (read ps e), arrive)
    where
      m : Dict String Json
      m = command_members cmd

      ms : Members cmd cmd.sync_token
      ms = members_lem cmd cmd.sync_token

      read :
          (ps : Dict String ParamValue)
          → params_of J (map_values finite (params_json cmd.params [])) [] ≡ some ps
          → command_of J (finite (object_of m))
            ≡ some (record cmd { params = ps; is_sync_barrier = false })
      read ps e =
          command_of-reads (finite (object_of m)) cmd ps
            (at-finite "id" m ∙ ap (map_option finite) ms.id)
            (at-finite "instrument_name" m ∙ ap (map_option finite) ms.instrument_name)
            (at-finite "verb" m ∙ ap (map_option finite) ms.verb)
            (at-finite "expects_response" m ∙ ap (map_option finite) ms.expects)
            (at-finite "timeout_ms" m ∙ ap (map_option finite) ms.timeout)
            (ap (token_of J) (at-finite "sync_token" m ∙ ap (map_option finite) ms.token)
              ∙ token_of-finite cmd.sync_token t)
            (ap (params_member J) (at-finite "params" m ∙ ap (map_option finite) ms.params)
              ∙ params_member-finite (params_json cmd.params [])
              ∙ e)
