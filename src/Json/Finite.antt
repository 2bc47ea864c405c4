-- ===== src/Json/Finite.antt =====
-- What a dump keeps: nlohmann::json writes `null` for a double that is not finite.
use instrument_script_server.Base.{
  ℕ, ◌/◌, ◌%◌, ◌^◌, String, ◌≡◌, refl, ap, Bool, not, [], ◌∷◌, Dict, map_values, nat_eqb,
  if◌then◌else◌, string_key,
}
use instrument_script_server.Json.{Json, Items, Fields, dict, fields}

-- Not all exponent bits are set.
unfoldable pub is_finite : ℕ → Bool
is_finite bits = not (nat_eqb (bits / 2 ^ 52 % 2 ^ 11) 2047)

unfoldable mutual
  pub finite : Json → Json
  finite Json.null = Json.null
  finite (Json.boolean b) = Json.boolean b
  finite (Json.integer z) = Json.integer z
  finite (Json.floating d) = if is_finite d then Json.floating d else Json.null
  finite (Json.text s) = Json.text s
  finite (Json.array js) = Json.array (finite_items js)
  finite (Json.object fs) = Json.object (finite_fields fs)

  pub finite_items : Items → Items
  finite_items Items.nil = Items.nil
  finite_items (Items.cons j js) = Items.cons (finite j) (finite_items js)

  pub finite_fields : Fields → Fields
  finite_fields Fields.end = Fields.end
  finite_fields (Fields.field k v fs) = Fields.field k (finite v) (finite_fields fs)

pub dict-finite_fields :
    (m : Dict String Json) → dict (finite_fields (fields m)) ≡ map_values finite m
unfolding finite_fields map_values
dict-finite_fields [] = refl
dict-finite_fields ((k, v) ∷ m) = ap (◌∷◌ (k, finite v)) (dict-finite_fields m)
