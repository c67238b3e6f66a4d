-- ===== src/Base.antt =====
-- The names that every component shares: the libraries', passed on, and those of the children.
-- Machine integers are native numbers with their wrap written out (`Word`), a Rust `String` is the
-- list of its UTF-8 bytes (`Text`), a `HashMap` is an association list (`Dict`), `f64` is an
-- interface (`Float`), and a Rust `Result` is `Fallible`.
mod Tests
mod Lists
mod Word
mod Text
pub mod Utf8
pub mod Int
pub mod Dict
pub mod Float
pub mod Fallible
pub mod Bits
pub mod Lines
pub mod Options
pub use Tests.*
pub use Lists.*
unfoldable pub use Word.*
unfoldable pub use Text.*
pub use Prim.Native.Nat.{ℕ, zero, suc, ◌+◌, ◌-◌, ◌*◌, ◌/◌, ◌%◌, ◌^◌, ◌≤◌, ◌<◌}
pub use mathlib.Core.Path.{◌≡◌, refl, sym, ap, ◌∙◌}
pub use mathlib.Core.Logic.{◌≢◌, ◌↔◌, ◌⊎◌, inl, inr}
pub use mathlib.Core.Bool.{Bool, true, false, not, ◌&&◌, ◌||◌}
pub use mathlib.Core.Option.{Option, none, some}
pub use mathlib.Core.List.{List, [], ◌∷◌, ◌++◌, map, reverse, append_assoc, append-nil}
pub use native.Mathlib.Omega.{arith}
