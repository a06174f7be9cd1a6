-- ===== src/Userprog.antt =====
-- code/userprog: user programs.
pub mod AddrSpace
