-- ===== src/Server.antt =====
-- fuzzy_log_server: the server that orders appends to the log.
pub mod Waiting
pub mod GotMax
pub mod Skeens
pub mod Chain
pub mod Edge
pub mod Trie
pub mod Locks
pub mod Rounds
