-- ===== src/Transaction.antt =====
-- transaction/: the amounts of assets, the transaction builder, its balancing, and the handler that
-- writes the transactions of a channel.
pub mod Funds
pub mod Builder
pub mod Balance
pub mod Handler
pub mod Build
