-- ===== src/Base/Sort.antt =====
-- Sorting and cutting lists, with the laws.
mod Defs
mod Laws
pub use Defs.{take}
unfoldable pub use Defs.{sort_by}
pub use Laws.*
