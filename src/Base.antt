-- ===== src/Base.antt =====
-- The names that the other modules share: the libraries', passed on, and those of the children.
mod Tests
mod Lists
mod Strings
mod Maps
pub mod Results
mod Actions
mod Rows
mod Invariants
pub use Invariants.{Keeps, Keeps-bind, Keeps-pure, Keeps-bind_after, keeps_rules}
pub use Tests.*
unfoldable pub use Lists.*
unfoldable pub use Strings.*
unfoldable pub use Maps.*
unfoldable pub use Rows.*
pub use Results.{Result, ok, err, Result-cases, ok_or-eq-ok, ensure-eq-ok}
unfoldable pub use Results.{ok_or, ensure}
unfoldable pub use Actions.{pure, raise, lift, ◌>>=◌}
pub use Actions.{Stateful, continue, ◌>>◌, >>=-eq-ok, bind_after, state-bind-pure}
pub use Prim.Native.Nat.{ℕ, zero, suc, ◌+◌, ◌-◌, ◌*◌, ◌/◌, ◌%◌, ◌^◌, ◌≤◌, ◌<◌}
pub use Prim.Native.String.{String}
pub use mathlib.Core.Path.{◌≡◌, refl, sym, ap, ◌∙◌}
pub use mathlib.Core.Logic.{◌≢◌, ◌↔◌, ◌⊎◌, inl, inr}
pub use mathlib.Core.Bool.{Bool, true, false, not, ◌&&◌, ◌||◌}
pub use mathlib.Core.Option.{Option, none, some}
pub use mathlib.Core.List.{List, [], ◌∷◌, ◌++◌, map}
pub use native.Mathlib.Omega.{arith}
