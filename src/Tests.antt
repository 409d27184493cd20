-- ===== src/Tests.antt =====
-- Examples at concrete inputs, by the part of the kernel that they run.
mod Heap
mod Text
mod Blocks
mod Paths
mod Table
mod Files
mod Keys
mod Pages
mod Tasks
mod Cpu
