-- ===== src/Context/Naming.antt =====
-- src/server/RuntimeContext.cpp: the text `instrument:channel.verb` of a call.
use Prim.Native.Char.{Char, code}
use instrument_script_server.Base.{
  ℕ, ◌+◌, ◌-◌, ◌*◌, ◌^◌, ℤ, pos, negsuc, zero, suc, String, Bool, true, false, Option, none, some,
  map_option, if◌then◌else◌, ltb, leb, nat_eqb, ◌||◌, ◌&&◌, nat_key, string_key,
}

abbrev push_front : Char → String × String → String × String
push_front c (s, t) = (String.◌∷◌ c s, t)

-- What stands before and after the first character with a code: `find` and two `substr`.
unfoldable pub split_at : ℕ → String → Option (String × String)
split_at k String.[] = none
split_at k (String.◌∷◌ c s) =
    let rest = split_at k s in
    if nat_eqb (code c) k then some (String.[], s) else map_option (push_front c) rest

-- std::stoi
is_space : ℕ → Bool
is_space n = nat_eqb n 32 || (leb 9 n && leb n 13)

is_digit : ℕ → Bool
is_digit n = leb 48 n && leb n 57

unfoldable pub skip_spaces : String → String
unfolding is_space
skip_spaces String.[] = String.[]
skip_spaces (String.◌∷◌ c s) =
    let rest = skip_spaces s in if is_space (code c) then rest else String.◌∷◌ c s

-- The value of the digits at the front, after those that are read.
unfoldable pub read_digits : ℕ → String → ℕ
unfolding is_digit
read_digits acc String.[] = acc
read_digits acc (String.◌∷◌ c s) =
    let rest = read_digits (acc * 10 + (code c - 48)) s in if is_digit (code c) then rest else acc

unfoldable pub starts_with_digit : String → Bool
unfolding is_digit
starts_with_digit String.[] = false
starts_with_digit (String.◌∷◌ c s) = is_digit (code c)

abbrev pub negated : ℕ → ℤ
negated zero = pos 0
negated (suc n) = negsuc n

-- A value that an `int` cannot hold is out of range, which is thrown.
abbrev pub in_range : Bool → ℕ → Option ℤ
in_range true n = if leb n (2 ^ 31) then some (negated n) else none
in_range false n = if ltb n (2 ^ 31) then some (pos n) else none

unfoldable pub unsigned_int : Bool → String → Option ℤ
unsigned_int negative s = if starts_with_digit s then in_range negative (read_digits 0 s) else none

unfoldable pub stoi_signed : String → Option ℤ
stoi_signed String.[] = none
stoi_signed (String.◌∷◌ c s) =
    if nat_eqb (code c) 45
    then unsigned_int true s
    else if nat_eqb (code c) 43
    then unsigned_int false s
    else unsigned_int false (String.◌∷◌ c s)

unfoldable pub stoi : String → Option ℤ
stoi s = stoi_signed (skip_spaces s)

pub record CallSpec : Type 0 where
  pub instrument_spec : String
  pub instrument_id : String
  pub channel : Option ℤ
  pub verb : String

-- `instrument` or `instrument:channel`.
abbrev pub with_channel : String → String → Option (String × String) → Option CallSpec
with_channel spec verb none =
    some (record { instrument_spec = spec; instrument_id = spec; channel = none; verb = verb })
with_channel spec verb (some (id, digits)) =
    map_option
      (λ ch. record { instrument_spec = spec; instrument_id = id; channel = some ch; verb = verb })
      (stoi digits)

abbrev pub with_verb : Option (String × String) → Option CallSpec
with_verb none = none
with_verb (some (spec, verb)) = with_channel spec verb (split_at b':' spec)

unfoldable pub parse_call : String → Option CallSpec
parse_call func_name = with_verb (split_at b'.' func_name)
