-- ===== src/Mailbox.antt =====
-- crates/mailbox: the mailbox server, which holds ciphertext for recipients that are offline.
pub mod Protocol
pub mod Failure
pub mod Store
pub mod Auth
pub mod Policy
pub mod Codec
pub mod Dispatch
pub mod Server
pub mod Tests
