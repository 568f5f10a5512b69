-- ===== src/Tests.antt =====
-- Runs of the program's code, many of them those of tests/, and the theorems at concrete inputs.
mod Sample
mod Document
mod Edits
mod Server
mod Registry
mod Roles
mod Threads
mod Promise
mod Client
mod Connections
mod Turns
mod Following
mod Opening
