-- ===== src/Gesture.antt =====
-- core/input/gesturehandler.js: touches on the screen become gestures.
pub mod Flags
pub mod Touches
pub mod State
pub mod Handler
pub mod Counts
pub mod Stage
pub mod Tallies
pub mod Starts
pub mod Pushes
pub mod Moves
pub mod Shifts
pub mod Cleans
pub mod Ends
pub mod Runs
pub mod Taps
mod Tests
