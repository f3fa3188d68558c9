-- ===== src/Tests.antt =====
-- The definitions at concrete inputs.
mod Ranges
mod Queues
mod Skeens
mod Chains
mod Colours
mod Reads
mod Replicas
mod Tries
mod Locks
mod Rounds
