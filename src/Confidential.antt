-- ===== src/Confidential.antt =====
-- providers/efi/confidential: the sealed requests and results of the webhook capabilities.
pub mod Data
pub mod Strict
pub mod Codec
pub mod Time
pub mod Sealing
pub mod Window
pub mod Tagging
pub mod Bound
pub mod Calls
pub mod Prepare
pub mod Observe
pub mod Ensure
pub mod Held
pub mod Guarded
pub mod Text
pub mod Public
