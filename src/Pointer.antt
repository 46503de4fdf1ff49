-- ===== src/Pointer.antt =====
-- core/rfb.js: the mouse, the wheel and the gestures become pointer and key events for the server.
pub mod State
pub mod Mouse
pub mod Gestures
pub mod Keeps
pub mod Scrolls
pub mod Held
pub mod Turns
pub mod Released
pub mod Touches
pub mod Legal
mod Tests
