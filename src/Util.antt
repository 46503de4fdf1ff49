-- ===== src/Util.antt =====
-- core/util: the helper files of the console client.
pub mod Int
