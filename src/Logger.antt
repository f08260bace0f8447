-- ===== src/Logger.antt =====
-- The asynchronous logger of src/logger/.
pub mod FixedBuffer
pub mod LogStream
pub mod AppendFile
pub mod LogFile
pub mod AsyncLogging
pub mod Examples
pub mod Logging
pub mod Thread
