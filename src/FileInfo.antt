-- ===== src/FileInfo.antt =====
-- Minix_Filefrag/fileinfo: the processes that have a file open, and its blocks.
pub mod Holders
pub mod Blocks
pub mod Calls
mod Tests
