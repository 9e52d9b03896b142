-- ===== src/Client.antt =====
-- smtp-client/src/lib.rs and kannader/src/queue_transport.rs: sending mail to another server.
pub mod Types
pub mod Replies
pub mod Connect
pub mod Sender
pub mod Transport
pub mod Severity
pub mod Tls
pub mod Encrypted
pub mod Leftover
pub mod Buffer
pub mod Stream
pub mod Ends
pub mod Sent
pub mod Delivery
pub mod Tests
