-- ===== src/Wallet.antt =====
-- wallet/: padded signatures, and the participants of a channel.
pub mod Signature
pub mod Address
