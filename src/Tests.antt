-- ===== src/Tests.antt =====
-- Inputs for the tests, each theorem at a concrete input, and runs.
pub mod Samples
mod Configs
mod Pairing
mod Explicit
mod Publishing
mod Webhook
mod Patching
mod Shadows
mod Lifecycle
mod Client
mod Commands
mod Watching
mod Claims
mod Preparing
mod Reconciling
