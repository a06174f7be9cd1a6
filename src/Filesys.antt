-- ===== src/Filesys.antt =====
-- code/filesys: the file system on the simulated disk, the one that a build without FILESYS_STUB uses.
pub mod Header
pub mod Name
pub mod Directory
pub mod Volume
pub mod OpenFile
