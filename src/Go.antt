-- ===== src/Go.antt =====
-- What the code uses of Go itself: maps with text keys, int32, and the `%d` verb of fmt.
pub mod Text
pub mod Sort
pub mod GoMap
pub mod Format
