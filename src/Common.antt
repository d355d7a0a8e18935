-- ===== src/Common.antt =====
-- The names that the other modules share: the libraries', passed on, and those of the children.
mod Tests
mod Lists
mod Memory
pub use Tests.*
pub use Lists.*
unfoldable pub use Memory.{◌>>=◌, store, store_bytes, bytes_eq, load_bytes, copy_partial}
pub use Memory.{bytes_eq_iff, store_lem, store_out, store_bytes-eq-overwrite, overwrite_one}
pub use Memory.{overwrite-overwrite, load_bytes-eq-take, load_bytes-overwrite}
pub use Memory.{store-eq-some, store_bytes-eq-some, load_bytes-overwrite_after}
pub use Memory.{overwrite-nil, drop-overwrite_after, bytes_eq_refl, bytes_eq_ne}
pub use Memory.{get_elem?-overwrite_before, get_elem?-overwrite_after}
pub use Prim.Native.Nat.{ℕ, zero, suc, ◌+◌, ◌-◌, ◌*◌, ◌/◌, ◌%◌, ◌^◌, ◌≤◌, ◌<◌, min}
pub use mathlib.Core.Path.{◌≡◌, refl, sym, ap, ◌∙◌}
pub use mathlib.Core.Logic.{◌≢◌, ◌↔◌, ◌⊎◌, inl, inr}
pub use mathlib.Core.Bool.{Bool, true, false, not, ◌&&◌, ◌||◌}
pub use mathlib.Core.Option.{Option, none, some}
pub use mathlib.Core.List.{List, [], ◌∷◌, ◌++◌, append-nil, append_assoc}
pub use native.Mathlib.Omega.{arith}
