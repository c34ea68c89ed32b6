-- ===== src/Encoding.antt =====
-- encoding/: the values of a channel in the contract's molecule types.
pub mod Bytes
pub mod State
pub mod Signature
pub mod Params
