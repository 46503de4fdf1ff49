-- ===== src/Rfb.antt =====
-- core/rfb.js: the messages to the server (`RFB.messages`), and what a server makes of them.
pub mod Messages
pub mod Delivery
pub mod Server
pub mod Sending
pub mod Reading
pub mod Heard
pub mod Session
mod Tests
