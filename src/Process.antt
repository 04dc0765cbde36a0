-- ===== src/Process.antt =====
-- cmd/adapter: the process, its boot, its command line, and the file that it publishes.
pub mod Files
pub mod Walks
pub mod Runtime
pub mod Command
pub mod Boot
