-- ===== src/Tests.antt =====
-- Concrete areas and stores that the theorems are applied to.
mod Setup
mod Areas
mod Backend
mod Drivers
mod Moves
mod Compaction
mod Rings
mod Stores
mod Threads
mod Volumes
