-- ===== src/Base/Sets.antt =====
-- `std::set` as a list without repetitions in the order of the keys.
use mathlib.Core.Path.{◌≡◌, refl}
use mathlib.Core.Bool.{Bool, true, false, not, ◌&&◌, ◌||◌}
use mathlib.Core.List.{List, [], ◌∷◌}
use native.Mathlib.Omega.{arith}
use instrument_script_server.Base.Tests.{if◌then◌else◌}
use instrument_script_server.Base.Keys.{Key, ◌==◌}

abbrev pub is_empty {ℓ} : {A : Type ℓ} → List A → Bool
is_empty [] = true
is_empty (x ∷ s) = false

module _ {ℓ} {K : Type ℓ} ⦃key : Key K⦄ where
  unfoldable pub member : K → List K → Bool
  member k [] = false
  member k (x ∷ s) = x == k || member k s

  unfoldable pub place_key : K → List K → List K
  place_key k [] = k ∷ []
  place_key k (x ∷ s) = if key.before k x then k ∷ x ∷ s else x ∷ place_key k s

  -- s.insert(k)
  unfoldable pub add : K → List K → List K
  add k s = if member k s then s else place_key k s

  unfoldable pub add_all : List K → List K → List K
  add_all [] s = s
  add_all (x ∷ xs) s = add_all xs (add x s)

  -- std::set(xs.begin(), xs.end())
  unfoldable pub of_list : List K → List K
  of_list xs = add_all xs []

  -- s.erase(k)
  unfoldable pub remove : K → List K → List K
  remove k [] = []
  remove k (x ∷ s) = let rest = remove k s in if x == k then rest else x ∷ rest

  unfoldable pub minus : List K → List K → List K
  minus [] t = []
  minus (x ∷ s) t = let rest = minus s t in if member x t then rest else x ∷ rest

  unfoldable pub subset : List K → List K → Bool
  subset [] t = true
  subset (x ∷ s) t = member x t && subset s t

  -- s == t: each holds the elements of the other.
  unfoldable pub same_set : List K → List K → Bool
  same_set s t = subset s t && subset t s

  member-place_key : (k j : K) (s : List K) → member j (place_key k s) ≡ (k == j || member j s)
  unfolding member place_key
  member-place_key k j [] = refl
  member-place_key k j (x ∷ s) = ground (arith, member-place_key k j s)

  pub member-add : (k j : K) (s : List K) → member j (add k s) ≡ (k == j || member j s)
  unfolding add
  member-add k j s = ground (arith, member-place_key k j s, key.eqb_iff k j)

  member-add_all : (j : K) (xs s : List K) → member j (add_all xs s) ≡ (member j xs || member j s)
  unfolding member add_all
  member-add_all j [] s = refl
  member-add_all j (x ∷ xs) s = ground (arith, member-add_all j xs (add x s), member-add x j s)

  pub member-of_list : (j : K) (xs : List K) → member j (of_list xs) ≡ member j xs
  unfolding of_list member
  member-of_list j xs = ground (arith, member-add_all j xs [])

  pub member-remove : (k j : K) (s : List K) → member j (remove k s) ≡ (not (k == j) && member j s)
  unfolding member remove
  member-remove k j [] = ground arith
  member-remove k j (x ∷ s) =
      ground (arith, member-remove k j s, key.eqb_iff x k, key.eqb_iff x j, key.eqb_iff k j)

  pub minus-add : (k : K) (s t : List K) → minus s (add k t) ≡ remove k (minus s t)
  unfolding minus remove
  minus-add k [] t = refl
  minus-add k (x ∷ s) t =
      ground (arith, minus-add k s t, member-add k x t, key.eqb_iff k x, key.eqb_iff x k)

  pub minus-nil : (s : List K) → minus s [] ≡ s
  unfolding minus member
  minus-nil [] = refl
  minus-nil (x ∷ s) = ground (arith, minus-nil s)

  pub subset-minus : (s t : List K) → subset s t ≡ is_empty (minus s t)
  unfolding subset minus
  subset-minus [] t = refl
  subset-minus (x ∷ s) t = ground (arith, subset-minus s t)

  pub member-minus :
      (j : K) (s t : List K) → member j (minus s t) ≡ (member j s && not (member j t))
  unfolding member minus
  member-minus j [] t = refl
  member-minus j (x ∷ s) t = ground (arith, member-minus j s t, key.eqb_iff x j)

  subset-place_key :
      (k : K) (s t : List K)
      → subset s t ≡ true
      → member k t ≡ true
      → subset (place_key k s) t ≡ true
  unfolding subset place_key
  subset-place_key k [] t h m = ground arith
  subset-place_key k (x ∷ s) t h m = ground (arith, subset-place_key k s t)

  pub subset-add :
      (k : K) (s t : List K) → subset s t ≡ true → member k t ≡ true → subset (add k s) t ≡ true
  unfolding add
  subset-add k s t h m = ground (arith, subset-place_key k s t)

  pub remove_absent : (k : K) (s : List K) → member k s ≡ false → remove k s ≡ s
  unfolding member remove
  remove_absent k [] h = refl
  remove_absent k (x ∷ s) h = ground (arith, remove_absent k s)

  subset-place_key_eq :
      (k : K) (s t : List K) → subset (place_key k s) t ≡ (member k t && subset s t)
  unfolding subset place_key
  subset-place_key_eq k [] t = refl
  subset-place_key_eq k (x ∷ s) t = ground (arith, subset-place_key_eq k s t)

  subset-member : (k : K) (s t : List K) → subset s t ≡ true → member k s ≡ true → member k t ≡ true
  unfolding subset member
  subset-member k [] t h m = cc
  subset-member k (x ∷ s) t h m = ground (arith, subset-member k s t, key.eqb_iff x k)

  pub subset-add_eq : (k : K) (s t : List K) → subset (add k s) t ≡ (member k t && subset s t)
  unfolding add
  subset-add_eq k s t = ground (arith, subset-place_key_eq k s t, subset-member k s t)

  subset-add_all : (xs s t : List K) → subset (add_all xs s) t ≡ (subset xs t && subset s t)
  unfolding subset add_all
  subset-add_all [] s t = refl
  subset-add_all (x ∷ xs) s t = ground (arith, subset-add_all xs (add x s) t, subset-add_eq x s t)

  pub subset-nil : (t : List K) → subset [] t ≡ true
  unfolding subset
  subset-nil t = refl

  -- A set made from a list holds what the list holds.
  pub subset-of_list : (xs t : List K) → subset (of_list xs) t ≡ subset xs t
  unfolding of_list
  subset-of_list xs t = ground (arith, subset-add_all xs [] t, subset-nil t)

  pub subset-cons : (k : K) (s t : List K) → subset s (k ∷ t) ≡ subset (remove k s) t
  unfolding subset member remove
  subset-cons k [] t = refl
  subset-cons k (x ∷ s) t = ground (arith, subset-cons k s t, key.eqb_iff x k, key.eqb_iff k x)

  pub member-is_empty : (k : K) (s : List K) → member k s ≡ true → is_empty s ≡ false
  unfolding member
  member-is_empty k [] h = cc
  member-is_empty k (x ∷ s) h = refl

  pub member_self : (k : K) (s : List K) → member k (k ∷ s) ≡ true
  unfolding member
  member_self k s = ground (arith, key.eqb_iff k k)

  pub member-nil : (k : K) → member k [] ≡ false
  unfolding member
  member-nil k = refl

  pub subset-is_empty : (s t : List K) → is_empty s ≡ true → subset s t ≡ true
  unfolding subset
  subset-is_empty [] t h = refl
  subset-is_empty (x ∷ s) t h = cc
