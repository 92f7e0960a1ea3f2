-- ===== src/Transaction.antt =====
-- bin/python/transaction.py: the transactions and the dictionaries that are sent for them.
pub mod Types
pub mod Setters
pub mod Encode
pub mod Flags
pub mod Sent
pub mod Complete
pub mod Signers
