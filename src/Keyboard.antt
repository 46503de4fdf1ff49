-- ===== src/Keyboard.antt =====
-- core/input/keyboard.js: the keys that are down, and the key events sent to the server.
pub mod Keys
pub mod Tables
pub mod Keycode
pub mod Handlers
pub mod Replay
pub mod Consistency
pub mod HandlerLaws
pub mod Inputs
mod Tests
