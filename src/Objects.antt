-- ===== src/Objects.antt =====
-- The C++ objects of a wrapper class beside libnl's store of reference-counted objects, and the
-- rules by which references pass between them.
pub mod Defs
pub mod Counting
pub mod Rules
pub mod Handle
pub mod Class
