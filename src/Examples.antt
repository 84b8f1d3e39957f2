-- ===== src/Examples.antt =====
-- Concrete inputs: each theorem that has conditions is applied at values that meet them.
mod Drains
mod Objects
mod Updates
mod Protocol
mod Rollouts
mod Naming
mod Images
mod Schedules
mod Pools
mod Backups
mod Inits
