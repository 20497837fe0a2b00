-- ===== src/Text.antt =====
-- Go strings: a string is its bytes. The operations of Go's `strings`, `unicode/utf8` and
-- `encoding/json` that the program calls are in the modules below.
pub mod Bytes
pub mod Utf8
pub mod Strings
pub mod Json
pub mod Decimal
pub mod Base64
