-- ===== src/Base/MapUnion.antt =====
-- The entries of one map written into another, and facts about all values.
use mathlib.Core.Path.{◌≡◌, refl}
use mathlib.Core.Logic.{inl, inr}
use mathlib.Core.List.{[], ◌∷◌}
use native.Mathlib.Omega.{arith}
use instrument_script_server.Base.Tests.{or_else, Bool-cases}
use instrument_script_server.Base.Keys.{Key, ◌==◌}
use instrument_script_server.Base.Maps.{
  Dict, lookup, has, replace, place, insert, Unique, lookup-insert, insert-Unique,
}

-- The entries of one map written into another, in order.
module _ {ℓ κ} {K : Type ℓ} ⦃key : Key K⦄ {V : Type κ} where
  unfoldable pub insert_all : Dict K V → Dict K V → Dict K V
  insert_all [] acc = acc
  insert_all ((k, v) ∷ m) acc = insert_all m (insert k v acc)

  pub lookup-insert_all :
      (j : K) (m acc : Dict K V)
      → Unique m
      → lookup j (insert_all m acc) ≡ or_else (lookup j m) (lookup j acc)
  unfolding insert_all lookup
  lookup-insert_all j [] acc u = refl
  lookup-insert_all j ((k, v) ∷ m) acc u =
      ground (
        arith,
        lookup-insert_all j m (insert k v acc) u.1,
        lookup-insert k j v acc,
        key.eqb_iff k j,
      )

  pub insert_all-Unique : (m acc : Dict K V) → Unique acc → Unique (insert_all m acc)
  unfolding insert_all
  insert_all-Unique [] acc u = u
  insert_all-Unique ((k, v) ∷ m) acc u = insert_all-Unique m _ (insert-Unique k v acc u)

  -- What holds of each value.
  abbrev pub Values {μ} : (V → Type μ) → Dict K V → Type μ
  Values P [] = Unit
  Values P ((k, v) ∷ m) = P v × Values P m

  replace-Values {μ} :
      (P : V → Type μ) (k : K) (v : V) (m : Dict K V) → P v → Values P m → Values P (replace k v m)
  unfolding replace
  replace-Values P k v [] h a = tt
  replace-Values P k v ((j, w) ∷ m) h a = elim (Bool-cases (j == k)) [
    | inl e ↦ rw e (h, a.1)
    | inr e ↦ rw e (a.0, replace-Values P k v m h a.1)
  ]

  place-Values {μ} :
      (P : V → Type μ) (k : K) (v : V) (m : Dict K V) → P v → Values P m → Values P (place k v m)
  unfolding place
  place-Values P k v [] h a = (h, tt)
  place-Values P k v ((j, w) ∷ m) h a = elim (Bool-cases (key.before k j)) [
    | inl e ↦ rw e (h, a)
    | inr e ↦ rw e (a.0, place-Values P k v m h a.1)
  ]

  pub insert-Values {μ} :
      (P : V → Type μ) (k : K) (v : V) (m : Dict K V) → P v → Values P m → Values P (insert k v m)
  unfolding insert
  insert-Values P k v m h a = elim (Bool-cases (has k m)) [
    | inl e ↦ rw e (replace-Values P k v m h a)
    | inr e ↦ rw e (place-Values P k v m h a)
  ]

  pub insert_all-Values {μ} :
      (P : V → Type μ) (m acc : Dict K V) → Values P m → Values P acc → Values P (insert_all m acc)
  unfolding insert_all
  insert_all-Values P [] acc h a = a
  insert_all-Values P ((k, v) ∷ m) acc h a =
      insert_all-Values P m (insert k v acc) h.1 (insert-Values P k v acc h.0 a)
