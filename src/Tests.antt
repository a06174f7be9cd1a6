-- ===== src/Tests.antt =====
-- Concrete runs of the modelled code, and the theorems at concrete inputs.
mod Maps
mod Files
mod Locks
mod Processor
mod Ready
mod Tlb
mod Containers
mod Devices
mod Threads
mod Spaces
