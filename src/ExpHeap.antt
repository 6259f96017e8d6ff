-- ===== src/ExpHeap.antt =====
-- libraries/lib_dd/include/dd/mem/mem_expheap.hpp and source/mem/mem_expheap.cpp, with the parts of
-- mem_heap.hpp that they use: a heap whose free and allocated blocks are two intrusive lists.
pub mod State
pub mod Blocks
pub mod Allocate
pub mod Adjust
pub mod Create
pub mod Never
pub mod Lost
pub mod Coalesce
pub mod Freed
pub mod Faults
pub mod Fresh
pub mod Sizes
pub mod Growth
mod Tests
