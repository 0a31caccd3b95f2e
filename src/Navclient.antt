-- ===== src/Navclient.antt =====
-- internal/navclient: the NAV client's configuration, replies and exchange token.
pub mod Failures
pub mod Replies
pub mod Config
pub mod Token
pub mod Sign
pub mod Timestamps
pub mod Envelope
pub mod Requests
pub mod Batches
pub mod Signed
