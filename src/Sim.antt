-- ===== src/Sim.antt =====
-- include/clc/sim and src/clc/sim: the parts of a simulation, the engine and the runtime that hold
-- them, and the workflows, actions and server on top.
pub mod Storage
pub mod Settlement
pub mod Routes
pub mod Caravans
pub mod Factions
pub mod Ownership
pub mod Contracts
pub mod Engine
pub mod Runtime
pub mod Workflow
pub mod Events
pub mod Snapshots
pub mod Safety
pub mod Actions
pub mod Server
