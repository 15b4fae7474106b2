-- ===== src/Text.antt =====
-- Text as the pallets build it: `u32::to_string`, `join` and `str::from_utf8` of the Rust library,
-- over byte strings.
mod Decimal
mod Split
mod Utf8
unfoldable pub use Decimal.*
unfoldable pub use Split.*
unfoldable pub use Utf8.*
