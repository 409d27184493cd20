-- ===== src/Memory.antt =====
-- memory/: the byte routines of memory.c, and the block allocator of heap/.
pub mod Bytes
pub mod Heap
pub mod Paging
