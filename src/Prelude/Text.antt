-- ===== src/Prelude/Text.antt =====
-- `encoding/hex` and `strconv` on the texts that the program writes and reads.
pub mod Hex
pub mod Slashes
pub mod Decimal
