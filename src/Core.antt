-- ===== src/Core.antt =====
-- include/clc/core and src/clc/core: game time, the event log and the world that owns both.
pub mod Time
pub mod EventLog
pub mod World
