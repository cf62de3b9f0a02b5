-- ===== src/Shell.antt =====
-- The parts of Minix_shell that work on strings. A string is the list of its characters, without
-- the terminating NUL.
pub mod Trim
pub mod Parser
pub mod IfThenElse
pub mod Words
pub mod Alias
pub mod Jobs
pub mod Spawn
pub mod CmdLoop
pub mod Profile
pub mod Redirection
mod Tests
