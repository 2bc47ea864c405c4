-- ===== src/Registry/Yaml.antt =====
-- src/server/InstrumentRegistry.cpp: the conversion of a YAML document to JSON. The readings of a scalar by yaml-cpp
-- are a parameter, and `none` an exception.
use instrument_script_server.Base.{
  ℕ, ℤ, String, Bool, Option, none, some, [], Dict, lookup, insert, lookup-insert, if◌then◌else◌,
  string_key, ◌==◌, ◌≡◌, refl, sym, ap, ◌∙◌, ◌>>=◌, >>=-eq-some, some_inj, map_option,
}
use instrument_script_server.Json.{
  Json, Items, null, boolean, integer, floating, text, array, object_of, nil, cons, at, dict-fields,
}

-- node.as<int64_t>, as<double> and as<bool> of a scalar's text.
pub record Scalars : Type 0 where
  pub as_int64 : String → Option ℤ
  pub as_double : String → Option ℕ
  pub as_bool : String → Option Bool

-- YAML::Node. A key is what as<std::string> gives for it, if it does not throw.
mutual
  pub data Yaml : Type 0 where
    empty : Yaml
    scalar : String → Yaml
    sequence : Nodes → Yaml
    mapping : Entries → Yaml

  pub data Nodes : Type 0 where
    done : Nodes
    node : Yaml → Nodes → Nodes

  pub data Entries : Type 0 where
    end_of_map : Entries
    entry : Option String → Yaml → Entries → Entries

-- The first reading that does not throw.
abbrev pub read_bool : String → Option Bool → Json
read_bool s none = text s
read_bool s (some b) = boolean b

abbrev pub read_double : Scalars → String → Option ℕ → Json
read_double S s none = read_bool s (S.as_bool s)
read_double S s (some d) = floating d

abbrev pub read_int64 : Scalars → String → Option ℤ → Json
read_int64 S s none = read_double S s (S.as_double s)
read_int64 S s (some z) = integer z

module _ (S : Scalars) where
  unfoldable mutual
    pub yaml_to_json : Yaml → Option Json
    yaml_to_json empty = some null
    yaml_to_json (scalar s) = some (read_int64 S s (S.as_int64 s))
    yaml_to_json (sequence nodes) = map_option array (nodes_json nodes)
    yaml_to_json (mapping entries) = map_option object_of (entries_json entries [])

    pub nodes_json : Nodes → Option Items
    nodes_json done = some nil
    nodes_json (node y nodes) = yaml_to_json y >>= λ j. map_option (cons j) (nodes_json nodes)

    pub entries_json : Entries → Dict String Json → Option (Dict String Json)
    entries_json end_of_map m = some m
    entries_json (entry key y entries) m =
        key >>= λ k. yaml_to_json y >>= λ j. entries_json entries (insert k j m)

  -- What the last entry with a key gives, and what is there without one.
  abbrev pub last_value : String → Entries → Option Json → Option Json
  last_value key end_of_map d = d
  last_value key (entry none y entries) d = last_value key entries d
  last_value key (entry (some k) y entries) d =
      last_value key entries (if k == key then yaml_to_json y else d)

  entries_json-last :
      (key : String) (entries : Entries) (m m' : Dict String Json)
      → entries_json entries m ≡ some m'
      → lookup key m' ≡ last_value key entries (lookup key m)
  unfolding yaml_to_json
  entries_json-last key end_of_map m m' e = ap (lookup key) (sym (some_inj e))
  entries_json-last key (entry none y entries) m m' e = cc
  entries_json-last key (entry (some k) y entries) m m' e =
      let (j, read, e') =
        >>=-eq-some (yaml_to_json y) (λ j. entries_json entries (insert k j m)) e in
      entries_json-last key entries (insert k j m) m' e'
      ∙ ap (last_value key entries)
          (lookup-insert k key j m ∙ ap (λ o. if k == key then o else lookup key m) (sym read))

  -- The JSON object of a YAML map has under each key the JSON value of the last entry with that key, and nothing
  -- where there is no entry with it.
  pub yaml_to_json-last :
      (key : String) (entries : Entries) (j : Json)
      → yaml_to_json (mapping entries) ≡ some j
      → at key j ≡ last_value key entries none
  unfolding yaml_to_json lookup
  yaml_to_json-last key entries j e = by_members (entries_json entries []) refl e
    where
      by_members :
          (o : Option (Dict String Json))
          → entries_json entries [] ≡ o
          → map_option object_of o ≡ some j
          → at key j ≡ last_value key entries none
      by_members none same h = cc
      by_members (some m) same h =
          ap (at key) (sym (some_inj h))
          ∙ ap (lookup key) (dict-fields m)
          ∙ entries_json-last key entries [] m same

  -- A file as create_instrument reads it: `none` where loading or converting it throws.
  abbrev pub load_json : (String → Option Yaml) → String → Option Json
  load_json load_file path = load_file path >>= yaml_to_json
