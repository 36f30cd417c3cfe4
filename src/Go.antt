-- ===== src/Go.antt =====
-- What the program uses of Go's standard library, over byte strings.
pub mod Bytes
pub mod Space
pub mod Floats
pub mod Lines
pub mod Lower
pub mod Map
pub mod Numbers
pub mod Quote
pub mod Replace
pub mod Unicode
