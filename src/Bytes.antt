-- ===== src/Bytes.antt =====
-- Byte strings as lists of numbers, as the crates of crates/ use them: `[u8; N]`, `Vec<u8>`, the
-- UTF-8 bytes of a `String`, `to_be_bytes` and `from_be_bytes` of the unsigned integers.
mod BigEndian
mod Equality
pub mod Utf8
unfoldable pub use BigEndian.*
unfoldable pub use Equality.*
unfoldable pub use Utf8.*
