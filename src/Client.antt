-- ===== src/Client.antt =====
-- fuzzy_log_client: the client, which reads the colours of the log in order.
pub mod RangeTree
pub mod Colour
