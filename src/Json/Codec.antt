-- ===== src/Json/Codec.antt =====
-- The parts of nlohmann::json that the program calls, as an interface with its documented laws.
use instrument_script_server.Base.{ℕ, ℤ, ◌≤◌, ◌<◌, ◌≡◌, Option, none, some}
use instrument_script_server.Json.{Json, Fields, object}
use instrument_script_server.Json.Finite.{finite}

pub record JsonText : Type 1 where
  -- Byte strings: their size, and their first bytes.
  pub Text : Type 0
  pub size : Text → ℕ
  pub cut : ℕ → Text → Text
  pub empty : Text
  pub dump : Json → Text
  -- `none` is a parse error, which is thrown.
  pub parse : Text → Option Json
  -- The conversions of numbers that get<double> and get<int64_t> make.
  pub to_double : ℤ → ℕ
  pub to_integer : ℕ → ℤ
  pub cut_whole : (n : ℕ) (t : Text) → size t ≤ n → cut n t ≡ t
  -- A dump reads back, but for the doubles that are written as null.
  pub parse-dump : (j : Json) → parse (dump j) ≡ some (finite j)
  -- An object's text that lacks its end is no JSON text.
  pub parse-cut :
      (n : ℕ) (fs : Fields) → n < size (dump (object fs)) → parse (cut n (dump (object fs))) ≡ none
