-- ===== src/Json.antt =====
-- JSON values as the program builds and reads them. A double is its 64-bit pattern. The two integer
-- kinds of nlohmann::json, which its accessors treat alike, are one constructor.
pub mod Finite
pub mod Codec
use instrument_script_server.Base.{
  ℕ, ℤ, String, Bool, true, false, Option, none, some, List, [], ◌∷◌, Dict, lookup, ◌≡◌, refl, ap,
  string_key, is_some,
}

mutual
  pub data Json : Type 0 where
    null : Json
    boolean : Bool → Json
    integer : ℤ → Json
    floating : ℕ → Json
    text : String → Json
    array : Items → Json
    object : Fields → Json

  pub data Items : Type 0 where
    nil : Items
    cons : Json → Items → Items

  pub data Fields : Type 0 where
    end : Fields
    field : String → Json → Fields → Fields

abbrev pub fields : Dict String Json → Fields
fields [] = end
fields ((k, v) ∷ m) = field k v (fields m)

abbrev pub dict : Fields → Dict String Json
dict end = []
dict (field k v fs) = (k, v) ∷ dict fs

pub dict-fields : (m : Dict String Json) → dict (fields m) ≡ m
dict-fields [] = refl
dict-fields ((k, v) ∷ m) = ap (◌∷◌ (k, v)) (dict-fields m)

-- An object built by `j[key] = value`.
abbrev pub object_of : Dict String Json → Json
object_of m = object (fields m)

abbrev pub items : List Json → Items
items [] = nil
items (j ∷ js) = cons j (items js)

abbrev pub list : Items → List Json
list nil = []
list (cons j js) = j ∷ list js

-- The members of an object; other values have none.
abbrev pub members : Json → Dict String Json
members (object fs) = dict fs
members _ = []

abbrev pub is_object : Json → Bool
is_object (object fs) = true
is_object _ = false

abbrev pub is_array : Json → Bool
is_array (array js) = true
is_array _ = false

abbrev pub elements : Json → List Json
elements (array js) = list js
elements _ = []

-- j.contains(key)
abbrev pub contains : String → Json → Bool
contains key j = is_some (lookup key (members j))

-- get<std::string>, get<bool>: any other value throws.
abbrev pub as_text : Json → Option String
as_text (text s) = some s
as_text _ = none

abbrev pub as_boolean : Json → Option Bool
as_boolean (boolean b) = some b
as_boolean _ = none

-- j[key] read at a type to which null does not convert.
abbrev pub at : String → Json → Option Json
at key j = lookup key (members j)
