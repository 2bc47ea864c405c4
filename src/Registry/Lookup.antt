-- ===== src/Registry/Lookup.antt =====
-- src/server/InstrumentRegistry.cpp: what an instrument's API definition says of a command.
use instrument_script_server.Json.{Json, at, as_text, elements, is_array, is_object}
use instrument_script_server.Base.{
  Dict, List, Option, String, Bool, lookup, some, ◌∷◌, ◌≡◌, [], false, none, true, ◌>>=◌,
  Option-cases, if◌then◌else◌, not, string_key, inl, ◌==◌, ap, sym, ◌∙◌, inr, refl,
}
use instrument_script_server.Registry.{Registry, InstrumentMetadata}

-- The definition of a command, if the API definition has one.
unfoldable pub find_command_def : Dict String InstrumentMetadata → String → String → Option Json
find_command_def metadata instrument_name verb = do
  meta ← lookup instrument_name metadata
  commands ← at "commands" meta.api_def
  if is_object commands then at verb commands else none

-- The outputs of a command's definition, if they are an array.
abbrev pub outputs_of : Json → Option (List Json)
outputs_of cmd_def = at "outputs" cmd_def >>= λ o. if is_array o then some (elements o) else none

abbrev pub is_nil : List Json → Bool
is_nil [] = true
is_nil (j ∷ js) = false

abbrev pub any_output : Option (List Json) → Bool
any_output none = false
any_output (some outputs) = not (is_nil outputs)

unfoldable pub command_expects_response : String → String → Registry → Bool
command_expects_response instrument_name verb r =
    any_output (find_command_def r.metadata instrument_name verb >>= outputs_of)

-- What a search gives: an exception, nothing, or a type.
pub data Found : Type 0 where
  throws : Found
  nothing : Found
  type_is : String → Found

abbrev pub or_next : Found → Found → Found
or_next nothing next = next
or_next found next = found

abbrev pub text_type : Option String → Found
text_type none = throws
text_type (some t) = type_is t

-- One entry of a section: its name under `key`, and its type if it is the one looked for.
abbrev pub entry_type : String → String → Json → Option Json → Found
entry_type key output entry none = nothing
entry_type key output entry (some n) = elim (as_text n) [
  | none ↦ throws
  | some name ↦
      if name == output
      then elim (at "type" entry) [ none ↦ nothing | some t ↦ text_type (as_text t) ]
      else nothing
]

unfoldable pub search_entries : String → String → List Json → Found
search_entries key output [] = nothing
search_entries key output (entry ∷ entries) =
    or_next (entry_type key output entry (at key entry)) (search_entries key output entries)

-- The array under a key, and no entries if there is none.
abbrev pub section : String → Json → List Json
section key j = elim (at key j) [ none ↦ [] | some a ↦ elements a ]

unfoldable pub search_groups : String → List Json → Found
search_groups output [] = nothing
search_groups output (group ∷ groups) =
    or_next (search_entries "suffix" output (section "io_types" group))
      (search_groups output groups)

abbrev pub output_type : Json → List Json → Found
output_type api_def [] = nothing
output_type api_def (output ∷ outputs) = elim (as_text output) [
  | none ↦ throws
  | some name ↦
      or_next (search_entries "name" name (section "io" api_def))
        (search_groups name (section "channel_groups" api_def))
]

abbrev pub listed_type : Json → Option (List Json) → Found
listed_type api_def none = nothing
listed_type api_def (some outputs) = output_type api_def outputs

unfoldable pub get_response_type : String → String → Registry → Found
get_response_type instrument_name verb r = elim (lookup instrument_name r.metadata) [
  | none ↦ nothing
  | some meta ↦
      listed_type meta.api_def (find_command_def r.metadata instrument_name verb >>= outputs_of)
]

-- A command that has a response type expects a response.
pub get_response_type-expects :
    (instrument_name verb t : String) (r : Registry)
    → get_response_type instrument_name verb r ≡ type_is t
    → command_expects_response instrument_name verb r ≡ true
unfolding get_response_type command_expects_response
get_response_type-expects instrument_name verb t r h =
    elim (Option-cases (lookup instrument_name r.metadata)) [
      | inl missing ↦ no_type (ap of_meta (sym missing) ∙ h)
      | inr (meta, there) ↦ listed meta.api_def _ (ap of_meta (sym there) ∙ h)
    ]
  where
    of_meta : Option InstrumentMetadata → Found
    of_meta none = nothing
    of_meta (some meta) =
        listed_type meta.api_def (find_command_def r.metadata instrument_name verb >>= outputs_of)

    no_type : nothing ≡ type_is t → command_expects_response instrument_name verb r ≡ true
    no_type e = cc

    listed :
        (api_def : Json) (o : Option (List Json))
        → listed_type api_def o ≡ type_is t
        → any_output o ≡ true
    listed api_def none e = cc
    listed api_def (some []) e = cc
    listed api_def (some (output ∷ outputs)) e = refl
