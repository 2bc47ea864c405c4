-- ===== src/Base/Keys.antt =====
-- Keys of maps and sets: equality and order tests as an interface, with its two instances.
use Prim.Native.Nat.{ℕ}
use Prim.Native.String.{String, compare}
use mathlib.Core.Path.{◌≡◌}
use mathlib.Core.Logic.{◌↔◌}
use mathlib.Core.Bool.{Bool, true}
use text.Mathlib.Text.{is_lt, ◌==◌ as str_eq}
use text.Mathlib.TextEquality.{eq_iff}
use instrument_script_server.Base.Tests.{ltb, nat_eqb, nat_eqb_iff}

pub record Key {ℓ} (K : Type ℓ) : Type ℓ where
  pub eqb : K → K → Bool
  pub before : K → K → Bool
  pub eqb_iff : (a b : K) → (eqb a b ≡ true) ↔ (a ≡ b)

infix 50 ◌==◌
abbrev pub ◌==◌ {ℓ} : {K : Type ℓ} ⦃key : Key K⦄ → K → K → Bool
◌==◌ ⦃key⦄ = key.eqb

abbrev pub str_before : String → String → Bool
str_before a b = is_lt (compare a b)

instance abbrev pub nat_key : Key ℕ
nat_key = record { eqb = nat_eqb; before = ltb; eqb_iff = nat_eqb_iff }

instance abbrev pub string_key : Key String
string_key = record { eqb = str_eq; before = str_before; eqb_iff = eq_iff }
