-- ===== src/Tests.antt =====
-- The examples at concrete inputs: each theorem of the results applied to values of this size.
mod Data
mod Registry
mod Signatures
mod Requests
mod Commands
mod Queues
mod Pages
mod Walks
mod Agents
mod Events
mod Places
mod Saved
