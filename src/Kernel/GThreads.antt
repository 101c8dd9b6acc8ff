-- ===== src/Kernel/GThreads.antt =====
-- kernel/ordo2.0: threads in a list that ends in null, the second of the three schedulers.
pub mod Lists
pub mod Switching
pub mod Waiting
pub mod Removal
pub mod Ending
pub mod Killing
pub mod Messages
