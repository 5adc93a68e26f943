-- ===== src/Fifos.antt =====
-- The small kernel of FileSystem-v3: its heap, its FIFO queue, its threads and its console.
pub mod Heap
pub mod Queue
pub mod Thread
pub mod Console
pub mod MemoryMap
pub mod Start
mod Tests
