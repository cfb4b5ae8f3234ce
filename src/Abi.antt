-- ===== src/Abi.antt =====
-- crates/rustc_abi_cxx: the C++ ABI queries over an interned model of the C++ types.
pub mod Types
pub mod Target
pub mod Context
pub mod Layout
pub mod Vtable
pub mod Mangle
pub mod Msvc
pub mod Samples
mod Tests
