-- ===== src/Tests.antt =====
-- Runs of the services on a small store, and the theorems applied to them.
mod Data
mod Accounts
mod Rooms
mod Sockets
mod Writing
mod Tokens
mod Http
mod Database
mod Observability
mod Client
