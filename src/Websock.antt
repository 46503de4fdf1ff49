-- ===== src/Websock.antt =====
-- core/websock.js: the buffers between the WebSocket and the protocol code.
-- `State` has the object's fields, `Receive` and `Send` the two queues, `Lifecycle` the handlers.
pub mod State
pub mod Receive
pub mod Send
pub mod Lifecycle
pub mod Unread
pub mod ReceiveLaws
pub mod ReadLaws
pub mod Calls
pub mod Session
pub mod SendLaws
pub mod PushLaws
pub mod PushBytes
pub mod LifecycleLaws
pub mod Overflow
mod Tests
