-- ===== src/Go.antt =====
-- What the program takes from Go and its standard library: float64, stable sorting, and the text
-- and time functions of strconv, strings and time, which are parameters.
pub mod Float
pub mod Sort
pub mod Text
pub mod Bytes
pub mod Less
