-- ===== src/Lib.antt =====
-- rustcc: the C++ ABI library of the compiler, crates/rustc_abi_cxx, which answers for a model of
-- C++ classes how a record is laid out and how its symbols are called.
--
-- The importer (crates/cxx_importer) fills a type context with interned types and classes, and
-- the back end asks the context for layouts. The parts that are modelled, and their files here:
--
--   crates/rustc_abi_cxx/src/ty.rs, diag.rs   Abi/Types
--   crates/rustc_abi_cxx/src/target.rs        Abi/Target
--   crates/rustc_abi_cxx/src/ctx.rs           Abi/Context and the files below it
--   crates/rustc_abi_cxx/src/layout.rs        Abi/Layout and the files below it
--   crates/rustc_abi_cxx/src/vtable.rs        Abi/Vtable and the files below it
--   crates/rustc_abi_cxx/src/vtt.rs           Abi/Vtable/Vtt and the files below it
--   crates/rustc_abi_cxx/src/mangle.rs        Abi/Mangle and the files below it
--   crates/rustc_abi_cxx/src/layout_msvc.rs   Abi/Msvc and the files below it
--
-- Types. The enums and structs of ty.rs, with an identifier as its list of character codes. Ids
-- are indices into the vectors of the context, cut to 32 bits (`as_u32`) where the source casts.
--
-- The type context. `CxxTypeCtx` is a record; an operation on `&mut self` returns the new context
-- (`intern_type` with the id, `define_class` with the id). Hash maps and sets are association
-- lists, of which only lookups are observed. An index out of range is `none`, and a panic where
-- the engine indexes.
--
-- The layout engine. `compute_layout` is made of the pieces of the Rust function in its order:
-- `place_head` (primary base or vptr), `place_bases`, `place_members`, `apply_alignas`,
-- `nv_size`, `place_virtual_bases`, `final_size` and `finish`; a union goes through
-- `place_union`. Its state is `LayoutState`, passed on explicitly. It asks itself for the layouts
-- of bases and members, so it runs on fuel, one unit for each level of classes; `place_base` and
-- `type_size_align` take the call one level down as the parameter `measure`. A call ends in
-- `Outcome`: a value, an error of the crate, a panic, or `stuck` when the fuel is used up. Fuel
-- above the rank of the class, with ranks that fall from a class to its bases and members, is
-- enough. The search for a place of an empty base has fuel of its own, one round more than there
-- are recorded places. Numbers are exact; each sum of the source is checked against 64 bits and
-- panics beyond, as with overflow checks.
--
-- The slots of a virtual table. `build_virtual_slots` walks the chain of first non-virtual bases
-- from the root down; its two variables are the record `SlotState`, and its loops are
-- `add_classes`, `add_methods` and `add_method`. `collect_chain` has one unit of fuel for each
-- class of the chain, and fuel above the rank of the class is enough for it too.
--
-- The mangler. `Mangler` is the output so far, as character codes, and the table of substitution
-- keys; a method on `&mut self` is an `Emit`, from a state to the next. The context is an
-- argument. The functions on names (`emit_from`, `emit_segment`, `emit_arg`) take the call of
-- `emit_type` as the parameter `rec`, since a template argument may be a type. Types recur
-- through the context, so `emit_type` and `type_to_key` run on fuel, one unit for each level of
-- types.
--
-- The tables. `vtable_itanium` is `polymorphic_table` for a polymorphic class; its two variables
-- are the record `TableState`, and `add_bases` is each of its loops. `ctx.layout` and
-- `ctx.mangle` are the Itanium engines here, which is what they are on an Itanium target. One
-- fuel is given to the slots, the layouts and the symbols.
--
-- The MSVC engine. `layout_msvc` is `place_own` (steps 1 to 5 of the Rust function), the rounding
-- of the size, `msvc_virtual_bases` and the final size, on the state `MsvcState`, with fuel as in
-- the Itanium engine, which is enough above the rank of the class here too. `layout` chooses the
-- engine by the target.
--
-- The table of tables. `vtt` is `build_vtt` behind its tests: the class's own table, then
-- `secondary_vtts` and `secondary_pointers`; `construction_vtables` names the construction
-- tables, whose entries are those of the table of the base.
--
-- Not modelled: the MSVC variants of tables and names; the choice by target in
-- `CxxTypeCtx::vtable` and `CxxTypeCtx::mangle`; the probing of the build host in `Target::host`;
-- the importer, which drives libclang; and the drivers, macros and the patched compiler, which
-- are input and output around outside tools.
pub mod Prelude
pub mod Abi
