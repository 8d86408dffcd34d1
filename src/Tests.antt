-- ===== src/Tests.antt =====
-- The theorems at concrete inputs.
pub mod Engine
pub mod Runtime
pub mod Server
pub mod Core
pub mod Economy
pub mod Goods
pub mod Contracts
