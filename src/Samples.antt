-- ===== src/Samples.antt =====
-- Concrete instances of the interfaces, for tests: a JSON text that is the value itself, its numbers counted
-- in unary, and a plugin that counts its calls.
use instrument_script_server.Base.{
  ℕ, ◌+◌, pos, negsuc, Option, none, some, true, leb, if◌then◌else◌, refl, arith, ◌<◌, ◌≤◌, ◌≡◌,
}
use instrument_script_server.Json.{Json, Items, Fields, object}
use instrument_script_server.Json.Finite.{finite}
use instrument_script_server.Json.Codec.{JsonText}
use instrument_script_server.Worker.Abi.{Plugin, param_int64}

unfoldable mutual
  pub json_size : Json → ℕ
  json_size (Json.integer (pos n)) = n + 1
  json_size (Json.integer (negsuc n)) = n + 2
  json_size (Json.array js) = items_size js + 2
  json_size (Json.object fs) = fields_size fs + 2
  json_size _ = 4

  items_size : Items → ℕ
  items_size Items.nil = 0
  items_size (Items.cons j js) = json_size j + 1 + items_size js

  fields_size : Fields → ℕ
  fields_size Fields.end = 0
  fields_size (Fields.field k v fs) = json_size v + 8 + fields_size fs

abbrev value_size : Option Json → ℕ
value_size none = 0
value_size (some j) = json_size j

abbrev value_cut : ℕ → Option Json → Option Json
value_cut n t = if leb (value_size t) n then t else none

pub value_cut_whole : (n : ℕ) (t : Option Json) → value_size t ≤ n → value_cut n t ≡ t
value_cut_whole n t h = ground arith

pub value_cut_short : (n : ℕ) (t : Option Json) → n < value_size t → value_cut n t ≡ none
value_cut_short n t h = ground arith

abbrev pub values : JsonText
values = record {
  Text = Option Json;
  size = value_size;
  cut = value_cut;
  empty = none;
  dump = λ j. some (finite j);
  parse = λ t. t;
  to_double = λ z. 0;
  to_integer = λ d. pos 0;
  cut_whole = value_cut_whole;
  parse-dump = λ j. refl;
  parse-cut = λ n fs. value_cut_short n (some (finite (object fs)));
}

abbrev pub counter : Plugin
counter = record {
  State = ℕ;
  execute_command = λ n cmd resp. (
    n + 1,
    record resp { success = true; command_id = cmd.id; return_value = param_int64 (pos n) },
  );
}
