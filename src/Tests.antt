-- ===== src/Tests.antt =====
-- Concrete rooms, packets, registries and a small database, on which the theorems are applied.
mod Fixtures
mod Games
mod Sessions
mod Storage
mod Clients
mod Networks
mod Watching
