-- ===== src/Containers.antt =====
-- code/lib/list.cc and code/lib/hash.cc: the containers the kernel keeps its objects in.
pub mod Sequence
pub mod Linked
pub mod Hash
