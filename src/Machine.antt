-- ===== src/Machine.antt =====
-- code/machine: the simulated processor.
pub mod Interrupt
pub mod Word
pub mod Mult
pub mod Mips
pub mod Tlb
