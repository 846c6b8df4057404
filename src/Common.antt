-- ===== src/Common.antt =====
-- The names that the other modules share: the libraries', passed on, and those of the children.
pub mod Tests
pub mod Lists
pub mod Keyed
pub use Tests.*
pub use Lists.{length, length-append, take, drop, All, All-append, All-keep}
unfoldable pub use Lists.{keep}
pub use Keyed.{
  Dict, eq_ne, get-put, get-del, get-put_self, get-put_ne, get-del_self, get-del_ne, get-del-none,
  length-put-le, length-put-pos, length-put_found, length-del-le, length_pos_of_get,
  get_of_length_zero, includes-append, includes-push, includes-without, length_pos_of_includes,
}
unfoldable pub use Keyed.{get, put, del, values, includes, without}
pub use Prim.Native.Nat.{ℕ, zero, suc, ◌+◌, ◌-◌, ◌*◌, ◌/◌, ◌%◌, ◌^◌, ◌≤◌, ◌<◌}
pub use Prim.Native.String.{String}
pub use text.Mathlib.Text.{◌==◌ as str_eq}
pub use text.Mathlib.TextEquality.{eq_iff}
pub use text.Mathlib.TextPositions.{eq_refl}
pub use mathlib.Core.Path.{◌≡◌, refl, sym, ap, ap₂, subst, ◌∙◌}
pub use mathlib.Core.Logic.{◌≢◌, ◌↔◌, ◌⊎◌, inl, inr}
pub use mathlib.Core.Bool.{Bool, true, false, ◌&&◌, ◌||◌, not}
pub use mathlib.Core.Option.{Option, none, some}
pub use mathlib.Core.List.{List, [], ◌∷◌, ◌++◌, map, append_assoc, append-nil}
pub use native.Mathlib.Omega.{arith}
