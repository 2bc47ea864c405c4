-- ===== src/Base/Maps.antt =====
-- `std::map` and `std::unordered_map` as association lists in the order of the keys. The C++ library
-- leaves the iteration order of the second open; no statement depends on it.
use Prim.Native.Nat.{ℕ, ◌+◌}
use mathlib.Core.Path.{◌≡◌, refl}
use mathlib.Core.Logic.{inl, inr}
use mathlib.Core.Bool.{Bool, true, false}
use mathlib.Core.Option.{Option, none, some}
use mathlib.Core.List.{List, [], ◌∷◌, map}
use native.Mathlib.Omega.{arith}
use instrument_script_server.Base.Tests.{if◌then◌else◌, is_some, Bool-cases}
use instrument_script_server.Base.Lists.{length}
use instrument_script_server.Base.Keys.{Key, ◌==◌}

abbrev pub Dict {ℓ κ} : Type ℓ → Type κ → Type (ℓ ⊔ κ)
Dict K V = List (K × V)

module _ {ℓ κ} {K : Type ℓ} ⦃key : Key K⦄ {V : Type κ} where
  unfoldable pub lookup : K → Dict K V → Option V
  lookup k [] = none
  lookup k ((j, v) ∷ m) = if j == k then some v else lookup k m

  unfoldable pub has : K → Dict K V → Bool
  has k m = is_some (lookup k m)

  unfoldable pub replace : K → V → Dict K V → Dict K V
  replace k v [] = []
  replace k v ((j, w) ∷ m) = if j == k then (j, v) ∷ m else (j, w) ∷ replace k v m

  unfoldable pub place : K → V → Dict K V → Dict K V
  place k v [] = (k, v) ∷ []
  place k v ((j, w) ∷ m) = if key.before k j then (k, v) ∷ (j, w) ∷ m else (j, w) ∷ place k v m

  -- m[k] = v
  unfoldable pub insert : K → V → Dict K V → Dict K V
  insert k v m = if has k m then replace k v m else place k v m

  -- m.erase(k): a map holds a key once.
  unfoldable pub erase : K → Dict K V → Dict K V
  erase k [] = []
  erase k ((j, v) ∷ m) = let rest = erase k m in if j == k then rest else (j, v) ∷ rest

  lookup-replace :
      (k j : K) (v : V) (m : Dict K V)
      → has k m ≡ true
      → lookup j (replace k v m) ≡ (if k == j then some v else lookup j m)
  unfolding lookup has replace
  lookup-replace k j v [] h = cc
  lookup-replace k j v ((i, w) ∷ m) h =
      ground (arith, key.eqb_iff k j, key.eqb_iff i k, key.eqb_iff i j, lookup-replace k j v m)

  lookup-place :
      (k j : K) (v : V) (m : Dict K V)
      → has k m ≡ false
      → lookup j (place k v m) ≡ (if k == j then some v else lookup j m)
  unfolding lookup has place
  lookup-place k j v [] h = refl
  lookup-place k j v ((i, w) ∷ m) h =
      ground (arith, key.eqb_iff k j, key.eqb_iff i k, key.eqb_iff i j, lookup-place k j v m)

  pub lookup-insert :
      (k j : K) (v : V) (m : Dict K V)
      → lookup j (insert k v m) ≡ (if k == j then some v else lookup j m)
  unfolding insert
  lookup-insert k j v m = elim (Bool-cases (has k m)) [
    | inl old ↦ rw old (lookup-replace k j v m old)
    | inr new ↦ rw new (lookup-place k j v m new)
  ]

  pub lookup-erase :
      (k j : K) (m : Dict K V) → lookup j (erase k m) ≡ (if k == j then none else lookup j m)
  unfolding lookup erase
  lookup-erase k j [] = ground arith
  lookup-erase k j ((i, w) ∷ m) =
      ground (arith, key.eqb_iff k j, key.eqb_iff i k, key.eqb_iff i j, lookup-erase k j m)

  unfoldable pub keys : Dict K V → List K
  keys m = map (λ e. e.0) m

  -- Each key stands once.
  abbrev pub Unique : Dict K V → Type (ℓ ⊔ κ)
  Unique [] = Unit
  Unique ((k, v) ∷ m) = (lookup k m ≡ none) × Unique m

  lookup-replace-none :
      (k j : K) (v : V) (m : Dict K V) → lookup j m ≡ none → lookup j (replace k v m) ≡ none
  unfolding lookup replace
  lookup-replace-none k j v [] h = refl
  lookup-replace-none k j v ((i, w) ∷ m) h = ground (arith, lookup-replace-none k j v m)

  replace-Unique : (k : K) (v : V) (m : Dict K V) → Unique m → Unique (replace k v m)
  unfolding replace
  replace-Unique k v [] u = tt
  replace-Unique k v ((i, w) ∷ m) u =
      ground (arith, replace-Unique k v m, lookup-replace-none k i v m)

  place-Unique : (k : K) (v : V) (m : Dict K V) → has k m ≡ false → Unique m → Unique (place k v m)
  unfolding lookup has place
  place-Unique k v [] h u = (refl, tt)
  place-Unique k v ((i, w) ∷ m) h u =
      ground (arith, place-Unique k v m, lookup-place k i v m, key.eqb_iff i k, key.eqb_iff k i)

  pub insert-Unique : (k : K) (v : V) (m : Dict K V) → Unique m → Unique (insert k v m)
  unfolding insert
  insert-Unique k v m u = elim (Bool-cases (has k m)) [
    | inl old ↦ rw old (replace-Unique k v m u)
    | inr new ↦ rw new (place-Unique k v m new u)
  ]

  pub erase-Unique : (k : K) (m : Dict K V) → Unique m → Unique (erase k m)
  unfolding erase
  erase-Unique k [] u = tt
  erase-Unique k ((i, w) ∷ m) u = ground (arith, erase-Unique k m, lookup-erase k i m)

  length-place : (k : K) (v : V) (m : Dict K V) → length (place k v m) ≡ length m + 1
  unfolding place
  length-place k v [] = omega arith
  length-place k v ((i, w) ∷ m) = ground (arith, length-place k v m)

  pub length-insert_new :
      (k : K) (v : V) (m : Dict K V) → lookup k m ≡ none → length (insert k v m) ≡ length m + 1
  unfolding insert has
  length-insert_new k v m h = rw h (length-place k v m)

  erase_absent : (k : K) (m : Dict K V) → lookup k m ≡ none → erase k m ≡ m
  unfolding lookup erase
  erase_absent k [] h = refl
  erase_absent k ((i, w) ∷ m) h = ground (arith, erase_absent k m)

  -- A number read off each entry, summed.
  pub total : (V → ℕ) → Dict K V → ℕ
  total f [] = 0
  total f ((k, v) ∷ m) = f v + total f m

  total-place : (f : V → ℕ) (k : K) (v : V) (m : Dict K V) → total f (place k v m) ≡ f v + total f m
  unfolding total place
  total-place f k v [] = refl
  total-place f k v ((i, w) ∷ m) = ground (arith, total-place f k v m)

  pub total-insert_new :
      (f : V → ℕ) (k : K) (v : V) (m : Dict K V)
      → lookup k m ≡ none
      → total f (insert k v m) ≡ f v + total f m
  unfolding insert has
  total-insert_new f k v m h = rw h (total-place f k v m)

  total-replace :
      (f : V → ℕ) (k : K) (v w : V) (m : Dict K V)
      → lookup k m ≡ some w
      → total f (replace k v m) + f w ≡ f v + total f m
  unfolding total replace lookup
  total-replace f k v w [] h = cc
  total-replace f k v w ((i, x) ∷ m) h = ground (arith, total-replace f k v w m)

  pub total-insert_old :
      (f : V → ℕ) (k : K) (v w : V) (m : Dict K V)
      → lookup k m ≡ some w
      → total f (insert k v m) + f w ≡ f v + total f m
  unfolding insert has
  total-insert_old f k v w m h = rw h (total-replace f k v w m h)

  pub total-erase :
      (f : V → ℕ) (k : K) (w : V) (m : Dict K V)
      → Unique m
      → lookup k m ≡ some w
      → total f (erase k m) + f w ≡ total f m
  unfolding total lookup erase
  total-erase f k w [] u h = cc
  total-erase f k w ((i, x) ∷ m) u h =
      ground (arith, total-erase f k w m u.1, erase_absent k m, key.eqb_iff i k)

  pub length-erase :
      (k : K) (m : Dict K V) → Unique m → has k m ≡ true → length (erase k m) + 1 ≡ length m
  unfolding lookup erase has
  length-erase k [] u h = cc
  length-erase k ((i, x) ∷ m) u h =
      ground (arith, length-erase k m u.1, erase_absent k m, key.eqb_iff i k)
