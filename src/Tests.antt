-- ===== src/Tests.antt =====
-- The theorems at work on small concrete targets.
mod Sample
mod DebugModule
mod Target
mod Names
mod Session
mod Main
mod Clients
mod Server
mod Hex
