-- ===== src/Display.antt =====
-- core/display.js: the hidden canvas on which all is drawn, the visible canvas that shows a viewport of
-- it, and the queue that keeps drawing in order while images load.
pub mod Canvas
pub mod State
pub mod Queue
pub mod Draw
pub mod Viewport
pub mod Calls
pub mod Keeps
pub mod Bounds
pub mod Placed
pub mod Sync
pub mod Sound
pub mod Order
pub mod InOrder
pub mod Stuck
pub mod Viewing
mod Tests
