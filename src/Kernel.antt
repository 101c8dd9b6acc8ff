-- ===== src/Kernel.antt =====
-- kernel/: the memory allocator and the threads.
pub mod Memory
pub mod Interrupts
pub mod Threads
pub mod Links
pub mod Queues
pub mod Rounds
pub mod Starting
pub mod GThreads
mod Examples
mod ThreadExamples
mod RoundExamples
mod GThreadExamples
pub mod FirstThreads
mod FirstThreadExamples
