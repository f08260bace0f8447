-- ===== src/Storage.antt =====
-- The key-value engine: src/storage.
pub mod Order
pub mod Heap
pub mod Table
pub mod SkipList
pub mod DumpFile
pub mod Service
pub mod Worker
pub mod Examples
pub mod KvServer
