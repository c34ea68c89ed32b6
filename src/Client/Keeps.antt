-- ===== src/Client/Keeps.antt =====
-- The methods of the client forget no script of its caches: those for ledger channels, and those for
-- virtual channels.
pub mod Ledger
pub mod Virtual
