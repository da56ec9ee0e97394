-- ===== src/Text.antt =====
-- Rust's `str` as the list of its chars (Unicode scalar values), and the standard library's
-- functions on it that the program calls. Every test of the program on a text is a test on chars.
mod Chars
mod Split
mod Numbers
pub mod Laws
pub mod Printing
unfoldable pub use Chars.*
unfoldable pub use Split.*
unfoldable pub use Numbers.*
