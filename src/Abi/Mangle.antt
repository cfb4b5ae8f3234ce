-- ===== src/Abi/Mangle.antt =====
-- crates/rustc_abi_cxx/src/mangle.rs: name mangling under the Itanium C++ ABI. The mangler stands in
-- `Digits`, `Keys`, `Emit`, `Types` and `Symbols`.
pub mod Digits
pub mod Keys
pub mod Emit
pub mod Types
pub mod Symbols
pub mod Base36
pub mod Reader
pub mod Paths
pub mod ClassNames
pub mod Table
pub mod Grows
pub mod Enters
pub mod Again
mod Tests
