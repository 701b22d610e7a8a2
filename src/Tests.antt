-- ===== src/Tests.antt =====
-- Witnesses: the theorems at concrete inputs.
mod Wire
mod Commands
mod Values
mod Hub
mod Restart
mod Lifecycle
mod Collections
