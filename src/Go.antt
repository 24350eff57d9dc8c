-- ===== src/Go.antt =====
-- What the Go language and its standard library give the operator.
pub mod Maps
pub mod StringMaps
pub mod Errors
pub mod Exec
pub mod Keeping
pub mod DeepEqual
pub mod Text
