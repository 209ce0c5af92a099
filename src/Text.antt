-- ===== src/Text.antt =====
-- What the CDC consumer uses of Python's text: code points, equality, white space, strict
-- UTF-8 and `int(text)`.
mod Points
pub mod Spaces
pub mod Order
pub mod Split
pub mod Padded
pub mod Utf8
pub mod Numerals
pub use Points.*
