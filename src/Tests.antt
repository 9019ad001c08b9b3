-- ===== src/Tests.antt =====
-- Runs of the definitions at concrete inputs, and the theorems applied to them.
mod Accepting
mod Proposing
mod Nodes
mod Counting
mod Clusters
mod Starting
mod Slots
mod Framing
mod Sockets
mod Wiring
mod Calls
mod Excluding
mod Tables
mod Storing
mod Queueing
