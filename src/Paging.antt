-- ===== src/Paging.antt =====
-- Page replacement and virtual memory of mp2/kernel.
pub mod Buffer
pub mod Search
pub mod Fifo
pub mod Lru
pub mod Replace
mod Tests
