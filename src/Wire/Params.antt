-- ===== src/Wire/Params.antt =====
-- Parameters on the wire: what arrives of a map of parameters.
use instrument_script_server.Base.{
  ℕ, String, ◌≡◌, refl, ap, ◌∙◌, true, Option, none, some, List, [], ◌∷◌, map, arith, Dict, lookup,
  lookup-insert, insert, insert_all, insert-map_values, lookup-insert_all, insert_all-Unique,
  insert_all-Values, map_values, Unique, Values, All, or_else, ◌>>=◌, ◌==◌, if◌then◌else◌,
  string_key, Bool-cases, inl, inr,
}
use instrument_script_server.Json.{items, list, floating}
use instrument_script_server.Json.Finite.{finite, finite_items, is_finite}
use instrument_script_server.Json.Codec.{JsonText}
use instrument_script_server.Wire.{
  ParamValue, double, int64, string, bool, doubles, value_json, params_json, as_doubles, array_of,
  param_of, params_of, put_param,
}

-- No array holds a double that is not finite.
abbrev pub ArrayFinite : ParamValue → Type 0
ArrayFinite (doubles ds) = All (λ d. is_finite d ≡ true) ds
ArrayFinite _ = Unit

-- What arrives of a value: a single double that is not finite is lost.
abbrev pub keep : ParamValue → Option ParamValue
keep (double d) = if is_finite d then some (double d) else none
keep v = some v

-- The map as it stands in the JSON object.
params_json-insert_all :
    (ps acc : Dict String ParamValue)
    → params_json ps (map_values value_json acc) ≡ map_values value_json (insert_all ps acc)
unfolding params_json insert_all
params_json-insert_all [] acc = refl
params_json-insert_all ((k, v) ∷ ps) acc =
    ap (params_json ps) (insert-map_values value_json k v acc)
    ∙ params_json-insert_all ps (insert k v acc)

module _ (J : JsonText) where
  pub as_doubles-finite :
      (ds : List ℕ)
      → All (λ d. is_finite d ≡ true) ds
      → as_doubles J (list (finite_items (items (map floating ds)))) ≡ some ds
  unfolding as_doubles finite finite_items
  as_doubles-finite [] h = refl
  as_doubles-finite (d ∷ ds) h = rw (h.0, as_doubles-finite ds h.1)

  param_of-keep :
      (v : ParamValue) → ArrayFinite v → param_of J (finite (value_json v)) ≡ some (keep v)
  unfolding param_of array_of finite
  param_of-keep (double d) h = elim (Bool-cases (is_finite d)) [ inl e ↦ rw e | inr e ↦ rw e ]
  param_of-keep (doubles ds) h = rw (as_doubles-finite ds h)
  param_of-keep (int64 z) h = refl
  param_of-keep (string s) h = refl
  param_of-keep (bool b) h = refl

  lookup-put_param :
      (j k : String) (v : Option ParamValue) (acc : Dict String ParamValue)
      → lookup j (put_param k v acc) ≡ (if k == j then or_else v (lookup j acc) else lookup j acc)
  lookup-put_param j k none acc = ground arith
  lookup-put_param j k (some v) acc = lookup-insert k j v acc

  put_all : Dict String ParamValue → Dict String ParamValue → Dict String ParamValue
  put_all [] acc = acc
  put_all ((k, v) ∷ ps) acc = put_all ps (put_param k (keep v) acc)

  params_of-put_all :
      (ps acc : Dict String ParamValue)
      → Values ArrayFinite ps
      → params_of J (map_values finite (map_values value_json ps)) acc ≡ some (put_all ps acc)
  unfolding params_of put_all map_values
  params_of-put_all [] acc h = refl
  params_of-put_all ((k, v) ∷ ps) acc h =
      rw (param_of-keep v h.0) (params_of-put_all ps (put_param k (keep v) acc) h.1)

  lookup-put_all :
      (j : String) (ps acc : Dict String ParamValue)
      → Unique ps
      → lookup j (put_all ps acc) ≡ or_else (lookup j ps >>= keep) (lookup j acc)
  unfolding put_all lookup
  lookup-put_all j [] acc u = refl
  lookup-put_all j ((k, v) ∷ ps) acc u = ground (
    arith,
    lookup-put_all j ps (put_param k (keep v) acc) u.1,
    lookup-put_param j k (keep v) acc,
    string_key.eqb_iff k j,
  )

  params_json-nil :
      (ps : Dict String ParamValue) → params_json ps [] ≡ map_values value_json (insert_all ps [])
  unfolding map_values
  params_json-nil ps = params_json-insert_all ps []

  -- Every parameter arrives, but for doubles that are not finite.
  pub params_arrive :
      (ps : Dict String ParamValue)
      → Unique ps
      → Values ArrayFinite ps
      → (qs : Dict String ParamValue) × (params_of J (map_values finite (params_json ps [])) []
          ≡ some qs)
        × ((j : String) → lookup j qs ≡ (lookup j ps >>= keep))
  unfolding lookup
  params_arrive ps u h =
      let all = insert_all ps [] in
      (
        put_all all [],
        ap (λ m. params_of J (map_values finite m) []) (params_json-nil ps)
            ∙ params_of-put_all all [] (insert_all-Values ArrayFinite ps [] h tt),
        λ j. ground (
          arith,
          lookup-put_all j all [] (insert_all-Unique ps [] tt),
          lookup-insert_all j ps [] u,
        ),
      )
