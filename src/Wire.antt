-- ===== src/Wire.antt =====
-- The readers of libcppgnss/include/cppgnss/wire_typed.hpp that the generated parsers call.
pub mod Cursor
pub mod Number
pub mod Fields
pub mod Remaining
pub mod Text
