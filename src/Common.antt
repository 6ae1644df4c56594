-- ===== src/Common.antt =====
-- The names that the other modules share: the libraries', passed on, and those of its children.
mod Tests
mod Eq
mod Int
mod Lists
mod Sort
mod HashMap
mod Table
pub use Tests.*
pub use Eq.{HasEq, ◌==◌, ==_iff, ==_refl, nat_eq, text_eq, pair_eq, text_beq_iff}
unfoldable pub use Eq.{text_beq}
unfoldable pub use Int.*
pub use Lists.*
unfoldable pub use Sort.*
unfoldable pub use HashMap.*
pub use Table.*
