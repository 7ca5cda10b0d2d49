-- ===== src/Account.antt =====
-- The account side of the program, ABaccount/: transactions and the key store.
pub mod Transaction
pub mod Authentication
pub mod Certificate
pub mod Keystore
pub mod Queue
pub mod Heap
pub mod Wallets
pub mod Directory
pub mod SubAccount
pub mod Updates
mod Tests
