-- ===== src/Abi/Msvc.antt =====
-- crates/rustc_abi_cxx/src/layout_msvc.rs: record layout under the MSVC C++ ABI.
pub mod State
pub mod Engine
pub mod Regions
pub mod Bases
pub mod Geometry
pub mod Multiples
pub mod Ends
mod Tests
