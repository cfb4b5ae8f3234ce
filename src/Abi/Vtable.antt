-- ===== src/Abi/Vtable.antt =====
-- crates/rustc_abi_cxx/src/vtable.rs: virtual tables under the Itanium C++ ABI.
pub mod Slots
pub mod Prefix
pub mod Overriders
pub mod Pair
pub mod Total
pub mod Entries
pub mod Tables
pub mod Pointers
pub mod Points
pub mod Targets
pub mod Thunk
pub mod Override
pub mod Vtt
mod Tests
mod TableTests
