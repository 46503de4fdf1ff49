-- ===== src/Rfb/Session.antt =====
-- core/rfb.js: the session. The connection's state, the handshake, and the server's messages.
pub mod State
pub mod Connection
pub mod Handshake
pub mod Auth
pub mod Start
pub mod Notices
pub mod Updates
pub mod Inputs
pub mod Legal
pub mod Keeps
pub mod KeepsInit
pub mod KeepsStart
pub mod KeepsUpdates
pub mod Life
pub mod Ends
mod Tests
