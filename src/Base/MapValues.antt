-- ===== src/Base/MapValues.antt =====
-- The values of a map changed by a function.
use mathlib.Core.Path.{ap, ◌∙◌, ◌≡◌, refl}
use mathlib.Core.Logic.{inl, inr}
use mathlib.Core.List.{[], ◌∷◌}
use native.Mathlib.Omega.{arith}
use instrument_script_server.Base.Tests.{map_option, Bool-cases}
use instrument_script_server.Base.Keys.{Key}
use instrument_script_server.Base.Maps.{Dict, lookup, has, replace, place, insert, Unique}

module _ {ℓ κ μ} {K : Type ℓ} ⦃key : Key K⦄ {V : Type κ} {W : Type μ} where
  -- The values of a map, each changed by one function.
  unfoldable pub map_values : (V → W) → Dict K V → Dict K W
  map_values f [] = []
  map_values f ((k, v) ∷ m) = (k, f v) ∷ map_values f m

  pub lookup-map_values :
      (f : V → W) (k : K) (m : Dict K V) → lookup k (map_values f m) ≡ map_option f (lookup k m)
  unfolding lookup map_values
  lookup-map_values f k [] = refl
  lookup-map_values f k ((j, v) ∷ m) = ground (arith, lookup-map_values f k m)

  pub map_values-Unique : (f : V → W) (m : Dict K V) → Unique m → Unique (map_values f m)
  unfolding map_values
  map_values-Unique f [] u = tt
  map_values-Unique f ((j, v) ∷ m) u =
      (lookup-map_values f j m ∙ ap (map_option f) u.0, map_values-Unique f m u.1)

  lookup-map_values-has : (f : V → W) (k : K) (m : Dict K V) → has k (map_values f m) ≡ has k m
  unfolding has
  lookup-map_values-has f k m = ground (arith, lookup-map_values f k m)

  replace-map_values :
      (f : V → W) (k : K) (v : V) (m : Dict K V)
      → replace k (f v) (map_values f m) ≡ map_values f (replace k v m)
  unfolding replace map_values
  replace-map_values f k v [] = refl
  replace-map_values f k v ((j, w) ∷ m) = ground (arith, replace-map_values f k v m)

  place-map_values :
      (f : V → W) (k : K) (v : V) (m : Dict K V)
      → place k (f v) (map_values f m) ≡ map_values f (place k v m)
  unfolding place map_values
  place-map_values f k v [] = refl
  place-map_values f k v ((j, w) ∷ m) = ground (arith, place-map_values f k v m)

  pub insert-map_values :
      (f : V → W) (k : K) (v : V) (m : Dict K V)
      → insert k (f v) (map_values f m) ≡ map_values f (insert k v m)
  unfolding insert
  insert-map_values f k v m = elim (Bool-cases (has k m)) [
    | inl old ↦ rw (lookup-map_values-has f k m, old) (replace-map_values f k v m)
    | inr new ↦ rw (lookup-map_values-has f k m, new) (place-map_values f k v m)
  ]
