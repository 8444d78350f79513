-- ===== src/Prelude/Strings.antt =====
-- Text as its list of code points: equality, order, search and the string methods that are used.
mod Defs
mod Laws
unfoldable pub use Defs.*
pub use Laws.*
