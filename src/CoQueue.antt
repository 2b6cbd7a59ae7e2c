-- ===== src/CoQueue.antt =====
-- src/lockless_queue.rs: the chunked queue `CoQueue` over an explicit heap of chunks. `Push`, `Pop`,
-- `Measure` and `Drop` hold the operations, run by one thread at a time, and the modules below them
-- prove what they do. `Threads` runs `push` and `pop` by many threads.
mod Chunk
mod Chain
pub mod Holds
pub mod State
pub mod Push
pub mod Pop
pub mod Measure
pub mod Drop
pub mod Fifo
pub mod Threads
mod Examples
