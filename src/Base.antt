-- ===== src/Base.antt =====
-- Names that every module shares: the libraries', passed on, and those of the child modules.
mod Tests
mod Lists
mod Keys
mod Maps
mod MapValues
mod MapUnion
mod Sets
mod Int
mod Decimal
pub use Tests.*
pub use Lists.*
pub use Keys.*
pub use Maps.*
pub use MapValues.*
pub use MapUnion.*
pub use Sets.*
pub use Int.*
pub use Decimal.*
unfoldable pub use Maps.{lookup, has, replace, place, insert, erase, keys}
unfoldable pub use MapValues.{map_values}
unfoldable pub use MapUnion.{insert_all}
unfoldable pub use Decimal.{to_decimal}
unfoldable pub use Sets.{member, place_key, add, add_all, of_list, remove, minus, subset, same_set}
pub use Prim.Native.Nat.{ℕ, zero, suc, ◌+◌, ◌-◌, ◌*◌, ◌/◌, ◌%◌, ◌^◌, ◌≤◌, ◌<◌, min}
pub use Prim.Native.String.{String}
pub use mathlib.Core.Path.{◌≡◌, refl, sym, ap, ◌∙◌, subst}
pub use mathlib.Core.Logic.{◌≢◌, ◌↔◌, ◌⊎◌, inl, inr}
pub use mathlib.Core.Bool.{Bool, true, false, not, ◌&&◌, ◌||◌}
pub use mathlib.Core.Option.{Option, none, some}
pub use mathlib.Core.List.{List, [], ◌∷◌, ◌++◌, map, append-nil, append_assoc}
pub use native.Mathlib.Omega.{arith}
