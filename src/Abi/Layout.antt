-- ===== src/Abi/Layout.antt =====
-- crates/rustc_abi_cxx/src/layout.rs: record layout under the Itanium C++ ABI. The engine stands in
-- `State`, `Classify`, `Hfa`, `Place` and `Compute`; the other modules prove its properties.
pub mod State
pub mod Classify
pub mod Hfa
pub mod Place
pub mod Compute
pub mod Align
pub mod Run
pub mod Keeps
pub mod Sizes
pub mod Steps
pub mod Cursor
pub mod Members
pub mod BaseOrder
pub mod Regions
pub mod Disjoint
pub mod Empties
pub mod EmptySpots
pub mod Terminates
pub mod WalksEnd
pub mod StepsEnd
pub mod EngineEnds
pub mod VirtualBases
pub mod TypeSizes
