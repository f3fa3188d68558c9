-- ===== src/Util.antt =====
-- fuzzy_log_util: the containers that the client and the server share.
pub mod Range
pub mod RangeMap
pub mod RangeTree
pub mod DequeMap
pub mod TreeDequeMap
