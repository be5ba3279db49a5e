-- ===== src/Prelude.antt =====
-- What the other modules share: the names of the libraries and the helpers of the children (Boolean
-- tests, lists, text and its character tests, results), passed on.
mod Tests
mod Lists
mod Codes
mod Names
pub mod Chars
pub mod Split
pub mod Decimal
pub mod Int
pub mod Result
unfoldable pub use Names.*
