-- ===== src/Tests.antt =====
-- Runs of the theorems at concrete inputs.
mod Memory
mod Tables
mod Index
mod Texts
mod Systems
mod Sockets
mod Jobs
mod Spans
mod Pages
mod Clients
mod Loops
