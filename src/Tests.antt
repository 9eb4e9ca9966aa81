-- ===== src/Tests.antt =====
-- Runs of the model on concrete inputs, for the theorems that have hypotheses.
pub mod Disk
pub mod Machine
mod Files
pub mod Settings
mod Startup
mod Patches
mod Json
mod Routes
mod Mapping
mod Packs
mod Runtime
mod Code
