-- ===== src/Types.antt =====
-- The package types: addresses, epochs, transactions, and the requests that are made from them.
pub mod Address
pub mod Epoch
pub mod Transaction
pub mod Request
pub mod Rlp
pub mod Response
pub mod Block
