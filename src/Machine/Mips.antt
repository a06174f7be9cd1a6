-- ===== src/Machine/Mips.antt =====
-- code/machine: mipssim.h, mipssim.cc, and the parts of machine.h, machine.cc and translate.cc that an instruction
-- runs through.
pub mod Tables
pub mod Decode
pub mod Execute
pub mod Switch
pub mod Processor
pub mod Reach
pub mod Memory
pub mod Arith
pub mod Flow
pub mod Contain
pub mod Safe
pub mod Unaligned
