-- ===== src/Examples.antt =====
-- Concrete runs of the model, and its theorems at concrete inputs.
mod Data
mod Wire
mod Stores
mod Servers
mod Resolvers
mod Rotations
mod Restarts
mod Endpoints
mod Pulls
mod Publishing
mod Addresses
mod Commands
mod Connections
mod Settings
