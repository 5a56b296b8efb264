-- ===== src/Tests.antt =====
-- Concrete surroundings and inputs, at which the theorems of the other modules are applied.
mod Base
mod Gateway
mod Data
mod Identities
mod Rest
mod Setup
mod Order
mod Bots
mod Replies
mod Memory
mod Connections
mod Sessions
